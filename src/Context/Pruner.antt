-- ===== src/Context/Pruner.antt =====
-- The pruning of tool results (context/pruner.go).
--
-- A text is the list of its code points, as `[]rune(text)` gives it; bytes that are no UTF-8 are not
-- modelled. A Go int is a ℤ. Of a message and its parts only what `PruneMessages` reads is kept.
use awesome_go_agents.Base.{
  ℕ, zero, suc, ◌+◌, ◌-◌, Bool, true, false, not, ◌&&◌, ◌||◌, Option, none, some, List, [], ◌∷◌,
  ◌++◌, String, ℤ, pos, negsuc, ltb, leb, ◌==◌, if◌then◌else◌, length, take, drop,
}
pub mod Length
pub mod Messages

abbrev pub Text : Type 0
Text = List ℕ

pub record PruneCaps : Type 0 where
  pub threshold_chars : ℤ
  pub head_chars : ℤ
  pub tail_chars : ℤ

unfoldable pub default_prune_caps : PruneCaps
default_prune_caps = record {
  threshold_chars = pos 8192;
  head_chars = pos 4096;
  tail_chars = pos 1024;
}

-- `clamp(v, 0, hi)`
unfoldable pub clamp : ℤ → ℕ → ℕ
clamp (pos v) hi = if ltb hi v then hi else v
clamp (negsuc v) hi = 0

-- `n <= v`
unfoldable pub at_most : ℕ → ℤ → Bool
at_most n (pos v) = leb n v
at_most n (negsuc v) = false

-- "\n... pruned ...\n"
abbrev pub marker : Text
marker = 10 ∷ 46 ∷ 46 ∷ 46 ∷ 32 ∷ 112 ∷ 114 ∷ 117 ∷ 110 ∷ 101 ∷ 100 ∷ 32 ∷ 46 ∷ 46 ∷ 46 ∷ 10 ∷ []

-- Whether the text is returned as it is.
unfoldable pub is_kept : PruneCaps → ℕ → Bool
unfolding clamp at_most
is_kept c n = at_most n c.threshold_chars || leb n (clamp c.head_chars n + clamp c.tail_chars n)

unfoldable pub cut : PruneCaps → ℕ → Text → Text
unfolding clamp
cut c n runes =
    take (clamp c.head_chars n) runes ++ (marker ++ drop (n - clamp c.tail_chars n) runes)

unfoldable pub prune_result : PruneCaps → Text → Text
unfolding is_kept cut
prune_result c runes = let n = length runes in if is_kept c n then runes else cut c n runes

-- `llm.RoleTool` and the other roles.
pub data Role : Type 0 where
  system user assistant tool : Role

pub record ToolCallResult : Type 0 where
  pub output : Text
  pub is_error : Bool

pub record Message : Type 0 where
  pub role : Role
  pub parts : List (Option ToolCallResult)

unfoldable pub same_text : Text → Text → Bool
same_text [] [] = true
same_text (m ∷ ms) (n ∷ ns) = m == n && same_text ms ns
same_text _ _ = false

-- A part after pruning, and 1 where it was shortened.
unfoldable pub prune_output : PruneCaps → ToolCallResult → ToolCallResult × ℕ
unfolding prune_result same_text
prune_output c r =
    let shortened = prune_result c r.output in
    if same_text shortened r.output then (r, 0) else (record r { output = shortened }, 1)

unfoldable pub prune_part : PruneCaps → Option ToolCallResult → Option ToolCallResult × ℕ
unfolding prune_output
prune_part c none = (none, 0)
prune_part c (some r) =
    let (r', n) = prune_output c r in if r.is_error then (some r, 0) else (some r', n)

unfoldable pub prune_parts :
    PruneCaps → List (Option ToolCallResult) → List (Option ToolCallResult) × ℕ
unfolding prune_part
prune_parts c [] = ([], 0)
prune_parts c (p ∷ ps) =
    let (p', m) = prune_part c p in let (ps', n) = prune_parts c ps in (p' ∷ ps', m + n)

abbrev pub is_tool : Role → Bool
is_tool tool = true
is_tool _ = false

unfoldable pub prune_message : PruneCaps → Message → Message × ℕ
unfolding prune_parts
prune_message c m =
    let (ps, n) = prune_parts c m.parts in
    if is_tool m.role then (record m { parts = ps }, n) else (m, 0)

-- `PruneMessages`: a nil message is skipped.
unfoldable pub prune_messages : PruneCaps → List (Option Message) → List (Option Message) × ℕ
unfolding prune_message
prune_messages c [] = ([], 0)
prune_messages c (none ∷ ms) = let (ms', n) = prune_messages c ms in (none ∷ ms', n)
prune_messages c (some m ∷ ms) =
    let (m', k) = prune_message c m in let (ms', n) = prune_messages c ms in (some m' ∷ ms', k + n)

pub record SpillRef : Type 0 where
  pub artifact : String
  pub preview : Text
  pub size : ℕ
  pub sha256 : String

-- The bytes of a code point, and `len([]byte(full))`.
rune_bytes : ℕ → ℕ
rune_bytes n = if ltb n 128 then 1 else if ltb n 2048 then 2 else if ltb n 65536 then 3 else 4

unfoldable pub byte_length : Text → ℕ
unfolding rune_bytes
byte_length [] = 0
byte_length (n ∷ ns) = rune_bytes n + byte_length ns

-- The last `tail` code points, where the tail is positive and shorter than the text.
unfoldable pub preview_of : ℤ → Text → Text
preview_of (pos zero) full = full
preview_of (pos (suc k)) full =
    if ltb (suc k) (length full) then drop (length full - suc k) full else full
preview_of (negsuc k) full = full

-- `Spill`, with the hex digest of crypto/sha256 as a parameter.
unfoldable pub spill : (Text → String) → ℤ → ℤ → Text → String → Text × Option SpillRef
unfolding at_most preview_of byte_length
spill digest max_inline preview_tail full artifact =
    if at_most (length full) max_inline then (full, none) else (
      preview_of preview_tail full,
      some (record {
        artifact = artifact;
        preview = preview_of preview_tail full;
        size = byte_length full;
        sha256 = digest full;
      }),
    )

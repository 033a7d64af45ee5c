-- ===== src/Job/Tail.antt =====
-- Tail reads of a job's output (integration/local/jobs.go: Output).
use awesome_go_agents.Base.{
  ℕ, zero, suc, ◌-◌, ◌≡◌, ◌≤◌, refl, sym, ap, ◌∙◌, true, List, [], ◌∷◌, ◌++◌, ltb, ◌==◌, arith,
  length, take, length-append, take-append-drop, take_of_length-le, Bool-cases, inl, inr,
  append-nil, append_assoc,
}
use awesome_go_agents.Job.{LocalJob, BoundedBuffer, write}
use awesome_go_agents.Job.Output.{read_text}

-- Writes and tail reads, in any order.
pub data Step : Type 0 where
  writes : List ℕ → Step
  reads : Step

-- The texts of the tail reads joined, and the job after them.
pub tail_run : List Step → LocalJob → List ℕ × LocalJob
unfolding read_text write
tail_run [] j = ([], j)
tail_run (writes p ∷ steps) j = tail_run steps (record j { output = write p j.output })
tail_run (reads ∷ steps) j =
    let (text, j') = read_text true j in
    let (texts, last) = tail_run steps j' in (text ++ texts, last)

take_append_le : (n : ℕ) (xs ys : List ℕ) → n ≤ length xs → take n (xs ++ ys) ≡ take n xs
take_append_le zero xs ys h = refl
take_append_le (suc n) [] ys h = absurd (omega arith)
take_append_le (suc n) (x ∷ xs) ys h = ap (◌∷◌ x) (take_append_le n xs ys (omega arith))

-- A write leaves what is there.
write_keeps :
    (p : List ℕ) (b : BoundedBuffer) (n : ℕ)
    → n ≤ length b.bytes
    → (take n (write p b).bytes ≡ take n b.bytes) × (n ≤ length (write p b).bytes)
unfolding write
write_keeps p b n h = elim (Bool-cases (b.max - length b.bytes == 0)) [
  | inl full ↦ rw full (refl, h)
  | inr room ↦ elim (Bool-cases (ltb (b.max - length b.bytes) (length p))) [
    | inl long ↦
        rw (room, long)
          (
            take_append_le n b.bytes (take (b.max - length b.bytes) p) h,
            omega (arith, length-append b.bytes (take (b.max - length b.bytes) p)),
          )
    | inr fits ↦
        rw (room, fits) (take_append_le n b.bytes p h, omega (arith, length-append b.bytes p))
  ]
]

-- A tail read gives what is left, and moves the position to the end.
read_text_left :
    (j : LocalJob)
    → j.last_read ≤ length j.output.bytes
    → (take j.last_read j.output.bytes ++ (read_text true j).0
        ≡ take (read_text true j).1.last_read (read_text true j).1.output.bytes)
      × ((read_text true j).1.last_read ≤ length (read_text true j).1.output.bytes)
unfolding read_text
read_text_left j h = elim (Bool-cases (ltb j.last_read (length j.output.bytes))) [
  | inl more ↦ rw more (
    take-append-drop j.last_read j.output.bytes
        ∙ sym (take_of_length-le (length j.output.bytes) j.output.bytes (omega arith)),
    omega arith,
  )
  | inr all ↦ rw all (append-nil (take j.last_read j.output.bytes), h)
]

-- What the tail reads of a job return, joined in their order, is its output from the position of the
-- first read to that of the last: no byte is left out and none is returned twice, however writes and
-- reads interleave. (The marker of a truncated output, which every read of such an output adds, is
-- not part of the texts.)
pub tail_run_lem :
    (steps : List Step) (j : LocalJob)
    → j.last_read ≤ length j.output.bytes
    → let (texts, last) = tail_run steps j in
      (take j.last_read j.output.bytes ++ texts ≡ take last.last_read last.output.bytes)
      × (last.last_read ≤ length last.output.bytes)
unfolding tail_run
tail_run_lem [] j h = (append-nil (take j.last_read j.output.bytes), h)
tail_run_lem (writes p ∷ steps) j h =
    let (same, bound) = write_keeps p j.output j.last_read h in
    let (rest, last) = tail_run_lem steps (record j { output = write p j.output }) bound in
    (
      ap (λ t. t ++ (tail_run steps (record j { output = write p j.output })).0) (sym same) ∙ rest,
      last,
    )
tail_run_lem (reads ∷ steps) j h =
    let (text, j') = read_text true j in
    let (now, bound) = read_text_left j h in
    let (rest, last) = tail_run_lem steps j' bound in
    (
      sym (append_assoc (take j.last_read j.output.bytes) text (tail_run steps j').0)
          ∙ ap (λ t. t ++ (tail_run steps j').0) now
          ∙ rest,
      last,
    )

-- ===== src/Job/Buffer.antt =====
-- The bounded buffer of a job's output (integration/local/process.go: boundedBuffer).
use awesome_go_agents.Base.{
  ℕ, zero, suc, ◌-◌, ◌≡◌, ◌≤◌, refl, sym, ap, ◌∙◌, false, List, [], ◌∷◌, ◌++◌, ltb, ◌==◌, arith,
  length, take, length-append, length-take, take_of_length-le, Bool-cases, inl, inr, append-nil,
}
use awesome_go_agents.Job.{BoundedBuffer, write}

take-append :
    (n : ℕ) (xs ys : List ℕ) → length xs ≤ n → take n (xs ++ ys) ≡ xs ++ take (n - length xs) ys
take-append n [] ys h = let e : n - 0 ≡ n = omega arith in rw e refl
take-append zero (x ∷ xs) ys h = absurd (omega arith)
take-append (suc n) (x ∷ xs) ys h =
    let e : suc n - suc (length xs) ≡ n - length xs = omega arith in
    rw e (ap (◌∷◌ x) (take-append n xs ys (omega arith)))

-- A write keeps of the old bytes and the new ones as many as there is room for, in order, and where
-- the buffer does not say afterwards that it is over, it has them all.
pub write_lem :
    (p : List ℕ) (b : BoundedBuffer)
    → length b.bytes ≤ b.max
    → ((write p b).bytes ≡ take b.max (b.bytes ++ p))
      × (length (write p b).bytes ≤ b.max)
      × ((write p b).over ≡ false → (write p b).bytes ≡ b.bytes ++ p)
unfolding write
write_lem p b h =
    let room = b.max - length b.bytes in
    let kept = take-append b.max b.bytes p h in
    elim (Bool-cases (room == 0)) [
      | inl full ↦
          let none_left : room ≡ 0 = ground arith in
          rw full (sym (kept ∙ rw none_left (append-nil b.bytes)), h, λ e. absurd (cc))
      | inr some_room ↦ elim (Bool-cases (ltb room (length p))) [
        | inl long ↦
            rw (some_room, long)
              (
                sym kept,
                omega (arith, length-append b.bytes (take room p), length-take room p),
                λ e. absurd (cc),
              )
        | inr fits ↦
            let all = take_of_length-le room p (ground arith) in
            rw (some_room, fits)
              (
                sym (kept ∙ ap (λ t. b.bytes ++ t) all),
                ground (arith, length-append b.bytes p),
                λ e. refl,
              )
      ]
    ]

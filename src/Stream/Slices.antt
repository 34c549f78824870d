-- ===== src/Stream/Slices.antt =====
-- The slices of a text that shared/sse.ts sends and client/runtime.ts joins again.
use mathlib.Core.List.{append-nil, append_assoc}
use sync_resource.Shared.{
  take-nil, ℕ, zero, suc, ◌+◌, ◌*◌, ◌≤◌, ◌≡◌, refl, sym, ap, ◌∙◌, true, Option, none, some, List,
  [], ◌∷◌, ◌++◌, arith, length, take, drop,
}
use sync_resource.Stream.{Units, slice_at, write_chunk, is_missing, join_chunks}

take-add : (a b : ℕ) (xs : Units) → take (a + b) xs ≡ take a xs ++ take b (drop a xs)
take-add zero b xs = let e : 0 + b ≡ b = omega arith in rw e refl
take-add (suc a) b [] = let e : suc a + b ≡ suc (a + b) = omega arith in rw e (sym (take-nil b))
take-add (suc a) b (x ∷ xs) =
    let e : suc a + b ≡ suc (a + b) = omega arith in rw e (ap (◌∷◌ x) (take-add a b xs))

pub take-all : (n : ℕ) (xs : Units) → length xs ≤ n → take n xs ≡ xs
take-all zero [] h = refl
take-all zero (x ∷ xs) h = absurd (omega arith)
take-all (suc n) [] h = refl
take-all (suc n) (x ∷ xs) h = ap (◌∷◌ x) (take-all n xs (omega arith))

-- The chunks that have come are the first ones, with no hole.
abbrev pub first_slices : ℕ → Units → ℕ → List (Option Units)
first_slices chars serialized zero = []
first_slices chars serialized (suc k) =
    first_slices chars serialized k ++ some (slice_at chars serialized k) ∷ []

length-snoc :
    (cs : List (Option Units)) (c : Option Units) → length (cs ++ c ∷ []) ≡ suc (length cs)
length-snoc [] c = refl
length-snoc (d ∷ cs) c = ap suc (length-snoc cs c)

pub length-first_slices :
    (chars : ℕ) (serialized : Units) (k : ℕ) → length (first_slices chars serialized k) ≡ k
length-first_slices chars serialized zero = refl
length-first_slices chars serialized (suc k) =
    length-snoc (first_slices chars serialized k) (some (slice_at chars serialized k))
    ∙ ap suc (length-first_slices chars serialized k)

pub is_missing-end : (cs : List (Option Units)) (i : ℕ) → length cs ≡ i → is_missing i cs ≡ true
unfolding is_missing
is_missing-end [] i e = refl
is_missing-end (c ∷ cs) zero e = absurd (omega arith)
is_missing-end (none ∷ cs) (suc i) e = is_missing-end cs i (omega arith)
is_missing-end (some u ∷ cs) (suc i) e = is_missing-end cs i (omega arith)

pub write_chunk-end :
    (cs : List (Option Units)) (i : ℕ) (u : Units)
    → length cs ≡ i
    → write_chunk i u cs ≡ cs ++ some u ∷ []
unfolding write_chunk
write_chunk-end [] zero u e = refl
write_chunk-end [] (suc i) u e = absurd (omega arith)
write_chunk-end (c ∷ cs) zero u e = absurd (omega arith)
write_chunk-end (c ∷ cs) (suc i) u e = ap (◌∷◌ c) (write_chunk-end cs i u (omega arith))

join-snoc :
    (cs : List (Option Units)) (u : Units) → join_chunks (cs ++ some u ∷ []) ≡ join_chunks cs ++ u
unfolding join_chunks
join-snoc [] u = append-nil u
join-snoc (none ∷ cs) u = join-snoc cs u
join-snoc (some v ∷ cs) u = ap (◌++◌ v) (join-snoc cs u) ∙ sym (append_assoc v (join_chunks cs) u)

pub join-first_slices :
    (chars : ℕ) (serialized : Units) (k : ℕ)
    → join_chunks (first_slices chars serialized k) ≡ take (k * chars) serialized
unfolding slice_at join_chunks
join-first_slices chars serialized zero = let e : 0 * chars ≡ 0 = grind arith in rw e refl
join-first_slices chars serialized (suc k) =
    let more : suc k * chars ≡ k * chars + chars = grind arith in
    rw more (
      join-snoc (first_slices chars serialized k) (take chars (drop (k * chars) serialized))
      ∙ ap (λ (p : Units). p ++ take chars (drop (k * chars) serialized))
          (join-first_slices chars serialized k)
      ∙ sym (take-add (k * chars) chars serialized))

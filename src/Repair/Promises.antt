-- ===== src/Repair/Promises.antt =====
-- The promises of the repair scheduler of client/repair.ts: which are open.
use sync_resource.Shared.{
  ℕ, zero, suc, ◌<◌, ◌≡◌, refl, Bool, true, false, not, ◌&&◌, ◌||◌, Option, none, some, List, [],
  ◌∷◌, ◌++◌, arith, length, eqb, get_elem?,
}
use sync_resource.Repair.{RepairResult, resolve, settle_promise}

-- A promise that was made and has not settled.
abbrev pub is_open : Option (Option RepairResult) → Bool
is_open none = false
is_open (some none) = true
is_open (some (some r)) = false

abbrev pub open_at : ℕ → List (Option RepairResult) → Bool
open_at id ps = is_open (get_elem? ps id)

pub eqb_refl : (a : ℕ) → eqb a a ≡ true
eqb_refl a = ground arith

eqb-suc : (a b : ℕ) → eqb (suc a) (suc b) ≡ eqb a b
eqb-suc a b = ground arith

eqb-suc_zero : (a : ℕ) → eqb (suc a) 0 ≡ false
eqb-suc_zero a = ground arith

eqb-zero_suc : (a : ℕ) → eqb 0 (suc a) ≡ false
eqb-zero_suc a = ground arith

and_true : (b : Bool) → b ≡ b && true
and_true true = refl
and_true false = refl

pub open_at-snoc :
    (id : ℕ) (ps : List (Option RepairResult))
    → open_at id (ps ++ none ∷ []) ≡ open_at id ps || eqb id (length ps)
open_at-snoc zero [] = refl
open_at-snoc (suc id) [] = ground arith
open_at-snoc zero (none ∷ ps) = ground arith
open_at-snoc zero (some r ∷ ps) = ground arith
open_at-snoc (suc id) (p ∷ ps) = rw (eqb-suc id (length ps)) (open_at-snoc id ps)

pub open_at-below :
    (id : ℕ) (ps : List (Option RepairResult)) → open_at id ps ≡ true → id < length ps
open_at-below id [] h = absurd (grind (arith, h))
open_at-below zero (p ∷ ps) h = omega arith
open_at-below (suc id) (p ∷ ps) h = omega (arith, open_at-below id ps h)

pub open_at-resolve :
    (id i : ℕ) (r : RepairResult) (ps : List (Option RepairResult))
    → open_at id (resolve i r ps) ≡ open_at id ps && not (eqb id i)
unfolding resolve settle_promise
open_at-resolve id i r [] = refl
open_at-resolve zero zero r (none ∷ ps) = refl
open_at-resolve zero zero r (some q ∷ ps) = refl
open_at-resolve (suc id) zero r (p ∷ ps) = rw (eqb-suc_zero id) (and_true (open_at id ps))
open_at-resolve zero (suc i) r (p ∷ ps) = rw (eqb-zero_suc i) (and_true (is_open (some p)))
open_at-resolve (suc id) (suc i) r (p ∷ ps) = rw (eqb-suc id i) (open_at-resolve id i r ps)

-- What has settled stays as it is.
pub resolve-settled :
    (id i : ℕ) (r q : RepairResult) (ps : List (Option RepairResult))
    → get_elem? ps id ≡ some (some q)
    → get_elem? (resolve i r ps) id ≡ some (some q)
unfolding resolve settle_promise
resolve-settled id i r q [] h = h
resolve-settled zero zero r q (none ∷ ps) h = absurd (grind (arith, h))
resolve-settled zero zero r q (some s ∷ ps) h = h
resolve-settled (suc id) zero r q (p ∷ ps) h = h
resolve-settled zero (suc i) r q (p ∷ ps) h = h
resolve-settled (suc id) (suc i) r q (p ∷ ps) h = resolve-settled id i r q ps h

-- An open promise gets the result.
pub resolve-open :
    (id : ℕ) (r : RepairResult) (ps : List (Option RepairResult))
    → open_at id ps ≡ true
    → get_elem? (resolve id r ps) id ≡ some (some r)
unfolding resolve settle_promise
resolve-open id r [] h = absurd (grind (arith, h))
resolve-open zero r (none ∷ ps) h = refl
resolve-open zero r (some q ∷ ps) h = absurd (grind (arith, h))
resolve-open (suc id) r (p ∷ ps) h = resolve-open id r ps h

-- ===== src/Executor/Drain.antt =====
-- The drain of the pty against a reader without a limit.
use code_executor_api.Prelude.{
  ℕ, zero, suc, ◌-◌, ◌≡◌, refl, true, false, Option, none, some, List, [], ◌∷◌, ◌++◌, Result, ok,
  err, take, length, ltb, if◌then◌else◌, arith, ap, sym, ◌∙◌,
}
use code_executor_api.FileSystem.{Bytes}
use code_executor_api.Executor.Run.{Round, idle, reads, eio, read_fails, written, drain}

-- Everything that is read until the end.
unfoldable pub read_all : Bytes → List Round → Option (Result (Unit {0}) Bytes)
read_all output [] = none
read_all output (idle stopped ∷ rounds) =
    let rest = read_all output rounds in if stopped then some (ok output) else rest
read_all output (eio ∷ rounds) = some (ok output)
read_all output (read_fails ∷ rounds) = some (err tt)
read_all output (reads [] ∷ rounds) = some (ok output)
read_all output (reads (b ∷ bs) ∷ rounds) = read_all (output ++ b ∷ bs) rounds

abbrev pub first_bytes : ℕ → Option (Result (Unit {0}) Bytes) → Option (Result (Unit {0}) Bytes)
first_bytes n none = none
first_bytes n (some (err e)) = some (err e)
first_bytes n (some (ok output)) = some (ok (take n output))

append_nil : (xs : Bytes) → xs ++ [] ≡ xs
append_nil [] = refl
append_nil (x ∷ xs) = ap (λ ys. x ∷ ys) (append_nil xs)

minus_zero : (n : ℕ) → suc n ≡ suc n - 0
minus_zero n = omega arith

minus_suc : (n k : ℕ) → n - k ≡ suc n - suc k
minus_suc n k = omega arith

take-append :
    (n : ℕ) (xs ys : Bytes) → take n (xs ++ ys) ≡ take n xs ++ take (n - length (take n xs)) ys
take-append zero xs ys = refl
take-append (suc n) [] ys = ap (λ k. take k ys) (minus_zero n)
take-append (suc n) (x ∷ xs) ys =
    ap (λ zs. x ∷ zs)
      (take-append n xs ys ∙ ap (λ k. take n xs ++ take k ys) (minus_suc n (length (take n xs))))

positive : (k : ℕ) → ltb 0 (suc k) ≡ true
positive k = ground arith

written-take :
    (n : ℕ) (output chunk : Bytes) → written n (take n output) chunk ≡ take n (output ++ chunk)
written-take n output chunk = rest (n - length (take n output)) refl
  where
    rest :
        (k : ℕ)
        → k ≡ n - length (take n output)
        → written n (take n output) chunk ≡ take n (output ++ chunk)
    rest zero e = rw (sym e, take-append n output chunk, sym e) (sym (append_nil (take n output)))
    rest (suc k) e = rw (sym e, take-append n output chunk, sym e, positive k) refl

drain-take :
    (n : ℕ) (output : Bytes) (rounds : List Round)
    → drain n (take n output) rounds ≡ first_bytes n (read_all output rounds)
unfolding drain read_all
drain-take n output [] = refl
drain-take n output (idle true ∷ rounds) = refl
drain-take n output (idle false ∷ rounds) = drain-take n output rounds
drain-take n output (eio ∷ rounds) = refl
drain-take n output (read_fails ∷ rounds) = refl
drain-take n output (reads [] ∷ rounds) = refl
drain-take n output (reads (b ∷ bs) ∷ rounds) =
    ap (λ (o : Bytes). drain n o rounds) (written-take n output (b ∷ bs))
    ∙ drain-take n (output ++ b ∷ bs) rounds

-- The drain goes through the same rounds as a reader without a limit, ends or fails with it, and
-- returns the first `max_size` bytes of what that one reads.
pub drain-first_bytes :
    (max_size : ℕ) (rounds : List Round)
    → drain max_size [] rounds ≡ first_bytes max_size (read_all [] rounds)
drain-first_bytes zero rounds = drain-take zero [] rounds
drain-first_bytes (suc n) rounds = drain-take (suc n) [] rounds

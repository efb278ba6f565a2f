-- ===== src/Core/Nonce/Serial.antt =====
-- soulon-wallet/src/core/nonce.ts: calls of `reserve` that do not overlap.
use mathlib.Core.List.{append_assoc}
use soulon_wallet.Prelude.{
  ℕ, zero, suc, ◌+◌, List, [], ◌∷◌, ◌++◌, replicate, none, some, ◌≡◌, ◌∙◌, ap, sym, refl, arith,
}
use soulon_wallet.Core.Nonce.{
  Manager, reserve_called, reserve_answered, reserve_resumed, call_reserve, answer_reserve,
  resume_reserve, run,
}

-- The nonces from `n` up to `n + k - 1`, the newest first.
unfoldable pub nonces_from : ℕ → ℕ → List ℕ
nonces_from n zero = []
nonces_from n (suc k) = nonces_from (n + 1) k ++ n ∷ []

call_reserve-known :
    (n : ℕ) (m : Manager)
    → m.next_nonce ≡ some n
    → call_reserve m ≡ record m { next_nonce = some (n + 1); reserved = n ∷ m.reserved }
unfolding call_reserve
call_reserve-known n m h = rw h

-- Once the manager knows its next nonce, `k` calls of `reserve` hand out the next `k` numbers in
-- order, each once, and leave the calls that are pending as they are.
pub run-reserves :
    (k n : ℕ) (m : Manager)
    → m.next_nonce ≡ some n
    → run (replicate k reserve_called) m
      ≡ record m { next_nonce = some (n + k); reserved = nonces_from n k ++ m.reserved }
unfolding run nonces_from
run-reserves zero n m h = ground arith
run-reserves (suc k) n m h =
    let next : Manager = record m { next_nonce = some (n + 1); reserved = n ∷ m.reserved } in
    let rest = run-reserves k (n + 1) next refl in
    let shift : n + 1 + k ≡ n + suc k = omega arith in
    ap (run (replicate k reserve_called)) (call_reserve-known n m h)
    ∙ rest
    ∙ rw (shift, append_assoc)

-- The same from a manager that does not know its next nonce and has no call pending: the first
-- call asks the chain, which answers `s`, and once it has returned, `k` more calls hand out the
-- `k` numbers behind `s`. So no nonce is handed out twice, and none is left out.
pub run-cold_start :
    (k s : ℕ) (m : Manager)
    → m.next_nonce ≡ none
    → (run
        (reserve_called ∷ reserve_answered s ∷ reserve_resumed ∷ replicate k reserve_called)
        m).reserved
      ≡ nonces_from s (suc k) ++ m.reserved
unfolding run call_reserve answer_reserve resume_reserve nonces_from
run-cold_start k s m h = rw (h) (
    ap (λ v. v.reserved) (run-reserves k (s + 1) _ refl)
    ∙ sym (append_assoc (nonces_from (s + 1) k) (s ∷ []) m.reserved))

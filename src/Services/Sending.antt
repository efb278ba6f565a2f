-- ===== src/Services/Sending.antt =====
-- What an operation that validates and then broadcasts does to the outside.
use soulon_wallet.Prelude.{
  ℕ, zero, suc, ◌+◌, ◌*◌, ◌≤◌, ◌<◌, ltb, ◌&&◌, Bool-cases, Text, ◌∷◌, ◌++◌, replicate, Option, none,
  some, ◌≡◌, ◌⊎◌, inl, inr, refl, ap, ◌∙◌, arith,
}
use soulon_wallet.Prelude.Results.{Result, ok, err}
use soulon_wallet.Core.Errors.{WalletError, Thrown, soulon, map_broadcast_error}
use soulon_wallet.Core.Effects.{
  TxRequest, DeliverTxResponse, Node, World, M, throw, lift, sign_and_broadcast, ◌>>=◌,
}
use soulon_wallet.Core.Broadcast.{
  BroadcastRetryOptions, base_delay_ms, is_retriable_error, broadcast_from, broadcast_with_retry,
  no_options, max_attempts,
}
use soulon_wallet.Core.Broadcast.Retry.{broadcast_with_retry-IsRun}

-- Between two states of the outside, one to three copies of one request with property `P` were
-- sent and nothing else.
pub record Sends (P : TxRequest → Type 0) (w w' : World) : Type 0 where
  pub request : TxRequest
  pub fit : P request
  pub copies : ℕ
  pub some_copy : 0 < copies
  pub few_copies : copies ≤ 3
  pub sent : w'.sent ≡ replicate copies request ++ w.sent

-- What was sent counts from any state with the same log.
pub Sends-from :
    {P : TxRequest → Type 0} (v w w' : World) → v.sent ≡ w.sent → Sends P v w' → Sends P w w'
Sends-from v w w' e s = record {
  request = s.request;
  fit = s.fit;
  copies = s.copies;
  some_copy = s.some_copy;
  few_copies = s.few_copies;
  sent = s.sent ∙ ap (λ l. replicate s.copies s.request ++ l) e;
}

-- Either the operation threw and did nothing at all to the outside, or it sent fit requests only.
abbrev pub IsCareful {ℓ} : {A : Type ℓ} → (TxRequest → Type 0) → M A → Type ℓ
IsCareful {A} P m = (w : World) → ((e : Thrown) × (m w ≡ (err e, w))) ⊎ Sends P w (m w).1

-- A check in front of a careful operation.
pub IsCareful-check {ℓ κ} :
    {A : Type ℓ} {B : Type κ} (P : TxRequest → Type 0) (r : Result Thrown A) (k : A → M B)
    → ((a : A) → r ≡ ok a → IsCareful P (k a))
    → IsCareful P (lift r >>= k)
IsCareful-check P (ok a) k h w = h a refl w
IsCareful-check P (err e) k h w = inl (e, refl)

pub Sends-broadcast :
    (P : TxRequest → Type 0) (lower : Text → Text) (node : Node) (request : TxRequest)
    → P request
    → (w : World)
    → Sends P w (broadcast_with_retry lower (sign_and_broadcast node request) no_options w).1
unfolding max_attempts
Sends-broadcast P lower node request fit w =
    let (n, run, sent, slept) =
      broadcast_with_retry-IsRun lower node request no_options w (omega arith) in
    record {
      request = request;
      fit = fit;
      copies = suc n;
      some_copy = omega arith;
      few_copies = omega (arith, run.within);
      sent = sent;
    }

pub IsCareful-broadcast :
    (P : TxRequest → Type 0) (lower : Text → Text) (node : Node) (request : TxRequest)
    → P request
    → IsCareful P (broadcast_with_retry lower (sign_and_broadcast node request) no_options)
IsCareful-broadcast P lower node request fit w = inr (Sends-broadcast P lower node request fit w)

-- The operation threw this error, and nothing was sent; it may have waited.
pub record SendsNothing {ℓ} {A : Type ℓ} (error : Thrown) (w : World) (r : Result Thrown A × World)
    : Type ℓ where
  pub thrown : r.0 ≡ err error
  pub same : r.1.sent ≡ w.sent

pub SendsNothing-from {ℓ} :
    {A : Type ℓ} {error : Thrown} (v w : World) (r : Result Thrown A × World)
    → v.sent ≡ w.sent
    → SendsNothing error v r
    → SendsNothing error w r
SendsNothing-from v w r e s = record { thrown = s.thrown; same = s.same ∙ e }

module _ (lower : Text → Text) (error : Thrown) (options : BroadcastRetryOptions) where
  abbrev Refused : World → Result Thrown DeliverTxResponse × World → Type 0
  Refused = SendsNothing (soulon (map_broadcast_error lower error))

  -- A closure that throws before it submits anything is run again like any other.
  round-SendsNothing :
      (rounds attempt : ℕ) (last : Option WalletError) (w : World)
      → ((v : World)
          → Refused v (
              broadcast_from lower
                (throw error)
                options
                rounds
                (attempt + 1)
                (some (map_broadcast_error lower error))
                v))
      → Refused w (broadcast_from lower (throw error) options (suc rounds) attempt last w)
  unfolding broadcast_from
  round-SendsNothing rounds attempt last w rest =
      elim (Bool-cases (
        is_retriable_error options (map_broadcast_error lower error).code
        && ltb attempt (max_attempts options))) [
          | inl again ↦
              let ih = rest (record w { slept = base_delay_ms options * attempt ∷ w.slept }) in
              rw again (record { thrown = ih.thrown; same = ih.same })
          | inr over ↦ rw over (record { thrown = refl; same = refl })
        ]

  broadcast_from-SendsNothing :
      (rounds attempt : ℕ) (w : World)
      → Refused w (
          broadcast_from lower
            (throw error)
            options
            rounds
            attempt
            (some (map_broadcast_error lower error))
            w)
  broadcast_from-SendsNothing zero attempt w =
      unfold broadcast_from in record { thrown = refl; same = refl }
  broadcast_from-SendsNothing (suc rounds) attempt w =
      round-SendsNothing rounds attempt _ w (broadcast_from-SendsNothing rounds (attempt + 1))

-- If the closure throws before it submits anything, every attempt throws, nothing is sent, and the
-- error is the library's for what was thrown.
pub broadcast_with_retry-SendsNothing :
    (lower : Text → Text) (error : Thrown) (w : World)
    → SendsNothing
        (soulon (map_broadcast_error lower error))
        w
        (broadcast_with_retry lower (throw error) no_options w)
unfolding broadcast_with_retry max_attempts
broadcast_with_retry-SendsNothing lower error w =
    round-SendsNothing lower error no_options 2 1 none w
      (broadcast_from-SendsNothing lower error no_options 2 2)

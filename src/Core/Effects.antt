-- ===== src/Core/Effects.antt =====
-- What the wallet library does to the outside: the requests that it signs and broadcasts, its
-- timers, its polls and its clock readings, with the outside as the parameter `Node`.
use soulon_wallet.Prelude.{ℕ, ◌+◌, Text, String, List, ◌∷◌, Option}
use soulon_wallet.Prelude.Int.{ℤ}
use soulon_wallet.Prelude.Results.{Result, ok, err}
use soulon_wallet.Core.Errors.{Thrown}
use soulon_wallet.Core.Types.{AuthzExecMessage}

pub record Coin : Type 0 where
  pub amount : Text
  pub denom : Text

-- The client library's `coin(amount, denom)`, which throws for an amount that it does not accept.
abbrev pub CoinOf : Type 0
CoinOf = Text → Text → Result Thrown Coin

-- The same function on text that was checked to be digits, where it does not throw.
abbrev pub DigitsCoinOf : Type 0
DigitsCoinOf = Text → Text → Coin

pub record Timestamp : Type 0 where
  pub seconds : ℤ
  pub nanos : ℤ

-- The protobuf library's enumeration of votes.
pub data VoteOption : Type 0 where
  option_yes option_no option_abstain option_no_with_veto : VoteOption

-- The part of a message that the library's code sets; the encoding is the protobuf library's.
pub data MsgValue : Type 0 where
  msg_send : Text → Text → List Coin → MsgValue
  msg_delegate : Text → Text → Coin → MsgValue
  msg_undelegate : Text → Text → Coin → MsgValue
  msg_begin_redelegate : Text → Text → Text → Coin → MsgValue
  msg_withdraw_delegator_reward : Text → Text → MsgValue
  msg_vote : ℕ → Text → VoteOption → MsgValue
  msg_transfer : Text → Text → Coin → Text → Text → ℤ → MsgValue
  msg_grant : Text → Text → Text → Timestamp → MsgValue
  msg_exec : Text → List AuthzExecMessage → MsgValue
  msg_revoke : Text → Text → Text → MsgValue

pub record EncodeObject : Type 0 where
  pub type_url : String
  pub value : MsgValue

-- The arguments of `client.signAndBroadcast`; the fee is always "auto".
pub record TxRequest : Type 0 where
  pub signer : Text
  pub messages : List EncodeObject
  pub memo : Text

pub record DeliverTxResponse : Type 0 where
  pub code : ℕ
  pub raw_log : Option Text
  pub transaction_hash : Text

-- What the library has done so far, the newest first, and how often it has read the clock.
pub record World : Type 0 where
  pub sent : List TxRequest
  pub slept : List ℕ
  pub polled : List Text
  pub readings : ℕ

-- The node and the clock. Each answer may depend on all that was done before.
pub record Node : Type 0 where
  pub submit : World → TxRequest → Result Thrown DeliverTxResponse
  pub get_tx : World → Text → Result Thrown (Option ℕ)
  pub now : World → ℕ

abbrev pub M {ℓ} : Type ℓ → Type ℓ
M A = World → Result Thrown A × World

abbrev pub return {ℓ} : {A : Type ℓ} → A → M A
return a w = (ok a, w)

abbrev pub throw {ℓ} : {A : Type ℓ} → Thrown → M A
throw e w = (err e, w)

abbrev pub lift {ℓ} : {A : Type ℓ} → Result Thrown A → M A
lift r w = (r, w)

abbrev pub continue {ℓ κ} :
    {A : Type ℓ} {B : Type κ} → Result Thrown A × World → (A → M B) → Result Thrown B × World
continue (ok a, w) f = f a w
continue (err e, w) f = (err e, w)

infixl 5 ◌>>=◌ ◌>>◌
abbrev pub ◌>>=◌ {ℓ κ} : {A : Type ℓ} {B : Type κ} → M A → (A → M B) → M B
◌>>=◌ m f w = continue (m w) f

abbrev pub ◌>>◌ {κ} : {B : Type κ} → M (Unit {0}) → M B → M B
m >> k = m >>= λ _. k

-- `try { return [await m] } catch (error) { … }`: the outcome as a value.
abbrev pub settle {ℓ} : {A : Type ℓ} → M A → M (Result Thrown A)
settle m w = let (r, w') = m w in (ok r, w')

-- `await sleep(ms)`.
abbrev pub sleep : ℕ → M (Unit {0})
sleep ms w = (ok tt, record w { slept = ms ∷ w.slept })

module _ (node : Node) where
  -- `client.signAndBroadcast(signer, messages, "auto", memo)`.
  abbrev pub sign_and_broadcast : TxRequest → M DeliverTxResponse
  sign_and_broadcast request w = (node.submit w request, record w { sent = request ∷ w.sent })

  -- `client.getTx(hash)`: the height, if the transaction is known.
  abbrev pub get_tx : Text → M (Option ℕ)
  get_tx hash w = (node.get_tx w hash, record w { polled = hash ∷ w.polled })

  -- `Date.now()`.
  abbrev pub date_now : M ℕ
  date_now w = (ok (node.now w), record w { readings = w.readings + 1 })

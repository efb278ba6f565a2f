-- ===== src/Services/Authz/Expiry.antt =====
-- soulon-wallet/src/services/authz.ts: when an authorisation expires, and what is sent for it.
use soulon_wallet.Prelude.{
  ℕ, suc, ◌+◌, ◌*◌, ◌/◌, ◌%◌, ◌<◌, ◌==◌, if◌then◌else◌, Text, Option, none, some, or_default, ◌≡◌,
  refl, arith,
}
use soulon_wallet.Prelude.Int.{ℤ, pos, negsuc, minus, floor_div, rem, times, times-minus}
use soulon_wallet.Prelude.Results.{Result}
use soulon_wallet.Core.Errors.{Thrown, soulon, map_broadcast_error}
use soulon_wallet.Core.Types.{Date, at, invalid_date, AuthzGrantInput}
use soulon_wallet.Core.Effects.{
  msg_grant, TxRequest, Timestamp, Node, World, M, DeliverTxResponse, continue, sign_and_broadcast,
  lift, ◌>>=◌,
}
use soulon_wallet.Core.Broadcast.{broadcast_with_retry, no_options}
use soulon_wallet.Core.Poll.Wait.{read}
use soulon_wallet.Services.Sending.{
  Sends, Sends-from, Sends-broadcast, SendsNothing, SendsNothing-from,
  broadcast_with_retry-SendsNothing,
}
use soulon_wallet.Services.Staking.{request_of}
use soulon_wallet.Services.Authz.{
  to_timestamp, new_date, expiration_of, grant_generic_authorization,
}

-- The timestamp is the instant `millis` milliseconds after the epoch, in normal form.
pub record Denotes (millis : ℕ) (t : Timestamp) : Type 0 where
  pub whole_seconds : ℕ
  pub rest : ℕ
  pub seconds : t.seconds ≡ pos whole_seconds
  pub nanos : t.nanos ≡ pos rest
  pub normal : rest < 1_000_000_000
  pub same : whole_seconds * 1_000_000_000 + rest ≡ millis * 1_000_000

-- The timestamp counts seconds and nanoseconds backwards from the epoch. What it comes to is the
-- instant `millis` milliseconds before the epoch if those are whole seconds, and one second before
-- that instant otherwise.
pub record DenotesBefore (millis : ℕ) (t : Timestamp) : Type 0 where
  pub whole_seconds : ℕ
  pub rest : ℕ
  pub seconds : t.seconds ≡ minus whole_seconds
  pub nanos : t.nanos ≡ minus rest
  pub bounded : rest < 1_000_000_000
  pub early :
      whole_seconds * 1_000_000_000 + rest
      ≡ millis * 1_000_000 + (if millis % 1000 == 0 then 0 else 1_000_000_000)

-- The timestamp of a date, for which `to_timestamp` does not throw.
abbrev timestamp_at : ℤ → Timestamp
timestamp_at millis = record {
  seconds = floor_div millis 1000;
  nanos = times (rem millis 1000) 1_000_000;
}

timestamp_at-Denotes : (n : ℕ) → Denotes n (timestamp_at (pos n))
timestamp_at-Denotes n = record {
  whole_seconds = n / 1000;
  rest = (n % 1000) * 1_000_000;
  seconds = refl;
  nanos = refl;
  normal = omega arith;
  same = omega arith;
}

timestamp_at-DenotesBefore : (n : ℕ) → DenotesBefore (suc n) (timestamp_at (negsuc n))
timestamp_at-DenotesBefore n = record {
  whole_seconds = suc (n / 1000);
  rest = (suc n % 1000) * 1_000_000;
  seconds = refl;
  nanos = times-minus (suc n % 1000) 1_000_000;
  bounded = omega arith;
  early = ground arith;
}

-- A grant from the granter, signed by the granter, with an expiry of this kind.
pub record IsGrant (input : AuthzGrantInput) (P : Timestamp → Type 0) (request : TxRequest)
    : Type 0 where
  pub expiry : Timestamp
  pub denotes : P expiry
  pub built :
      request
      ≡ request_of input.granter_address "/cosmos.authz.v1beta1.MsgGrant"
          (msg_grant input.granter_address input.grantee_address input.msg_type_url expiry)
          input.memo

-- What a call comes to, by the date at which the grant is to expire.
abbrev pub IsGranted :
    (Text → Text)
    → Thrown
    → AuthzGrantInput
    → Date
    → World
    → Result Thrown DeliverTxResponse × World
    → Type 0
IsGranted lower range_error input (at (pos n)) w r = Sends (IsGrant input (Denotes n)) w r.1
IsGranted lower range_error input (at (negsuc n)) w r =
    Sends (IsGrant input (DenotesBefore (suc n))) w r.1
IsGranted lower range_error input invalid_date w r =
    SendsNothing (soulon (map_broadcast_error lower range_error)) w r

module _ (lower : Text → Text) (client : Node) (range_error : Thrown)
    (input : AuthzGrantInput) where
  abbrev request_at : Timestamp → TxRequest
  request_at timestamp =
      request_of input.granter_address "/cosmos.authz.v1beta1.MsgGrant"
        (msg_grant input.granter_address input.grantee_address input.msg_type_url timestamp)
        input.memo

  abbrev grant_until : Date → M DeliverTxResponse
  grant_until date =
      broadcast_with_retry lower
        (lift (to_timestamp range_error date) >>= λ timestamp.
          sign_and_broadcast client (request_at timestamp))
        no_options

  grant_until-Sends :
      (P : Timestamp → Type 0) (millis : ℤ) (w : World)
      → P (timestamp_at millis)
      → Sends (IsGrant input P) w (grant_until (at millis) w).1
  unfolding to_timestamp
  grant_until-Sends P millis w fit =
      Sends-broadcast _ lower client (request_at (timestamp_at millis))
        (record { expiry = timestamp_at millis; denotes = fit; built = refl }) w

  grant_until-IsGranted :
      (date : Date) (w : World) → IsGranted lower range_error input date w (grant_until date w)
  unfolding to_timestamp
  grant_until-IsGranted (at (pos n)) w =
      grant_until-Sends (Denotes n) (pos n) w (timestamp_at-Denotes n)
  grant_until-IsGranted (at (negsuc n)) w =
      grant_until-Sends (DenotesBefore (suc n)) (negsuc n) w (timestamp_at-DenotesBefore n)
  grant_until-IsGranted invalid_date w = broadcast_with_retry-SendsNothing lower range_error w

  IsGranted-from :
      (date : Date) (v w : World) (r : Result Thrown DeliverTxResponse × World)
      → v.sent ≡ w.sent
      → IsGranted lower range_error input date v r
      → IsGranted lower range_error input date w r
  IsGranted-from (at (pos n)) v w r e g = Sends-from v w r.1 e g
  IsGranted-from (at (negsuc n)) v w r e g = Sends-from v w r.1 e g
  IsGranted-from invalid_date v w r e g = SendsNothing-from v w r e g

  expiration_of-IsGranted :
      (e : Option Date) (w : World)
      → IsGranted lower range_error input
          (or_default e (new_date (client.now w + 604_800_000)))
          w
          (continue (expiration_of client e w) grant_until)
  unfolding expiration_of
  expiration_of-IsGranted (some date) w = grant_until-IsGranted date w
  expiration_of-IsGranted none w =
      let date = new_date (client.now w + 604_800_000) in
      IsGranted-from date (read w) w (grant_until date (read w)) refl
        (grant_until-IsGranted date (read w))

-- `grantGenericAuthorization` with the date that was given, or with the date seven days after the
-- clock was read, before the first attempt. From 1970 on, it sends one to three copies of one grant
-- and nothing else, and the grant expires exactly at that date. Before 1970 it does the same, but the
-- seconds and the nanoseconds of the grant are both negative or zero, and they come to a second
-- before the date, unless the date is a whole second. For an invalid date it sends nothing and
-- throws the library's error for the RangeError.
pub grant_generic_authorization-IsGranted :
    (lower : Text → Text) (client : Node) (range_error : Thrown) (input : AuthzGrantInput)
    (w : World)
    → IsGranted lower range_error input
        (or_default input.expiration (new_date (client.now w + 604_800_000)))
        w
        (grant_generic_authorization lower client range_error input w)
unfolding grant_generic_authorization
grant_generic_authorization-IsGranted lower client range_error input w =
    expiration_of-IsGranted lower client range_error input input.expiration w

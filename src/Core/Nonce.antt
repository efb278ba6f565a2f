-- ===== src/Core/Nonce.antt =====
-- soulon-wallet/src/core/nonce.ts: the nonce manager. A call of `reserve` or `sync` runs up to its
-- `await`; the chain's answer runs the rest of `sync`, and what follows in `reserve` runs in a
-- later turn of the event loop. Each of these pieces is one event.
pub mod Serial
pub mod Overlap
mod Tests
use soulon_wallet.Prelude.{
  ℕ, ◌+◌, ◌-◌, or_default, is_some, if◌then◌else◌, List, [], ◌∷◌, Option, none, some,
}

-- The variable `nextNonce`, the pending calls by what they wait for, and the nonces that were
-- handed out, the newest first.
pub record Manager : Type 0 where
  pub next_nonce : Option ℕ
  pub asking : ℕ
  pub resuming : ℕ
  pub syncing : ℕ
  pub reserved : List ℕ

abbrev pub create_nonce_manager : Manager
create_nonce_manager = record {
  next_nonce = none;
  asking = 0;
  resuming = 0;
  syncing = 0;
  reserved = [];
}

pub data Event : Type 0 where
  reserve_called : Event
  reserve_answered : ℕ → Event
  reserve_resumed : Event
  reserve_rejected : Event
  sync_called : Event
  sync_answered : ℕ → Event
  sync_rejected : Event
  reset_called : Event

-- `const reserved = nextNonce ?? 0; nextNonce = reserved + 1; return reserved`.
unfoldable pub take_nonce : Manager → Manager
take_nonce m =
    let reserved = or_default m.next_nonce 0 in
    record m { next_nonce = some (reserved + 1); reserved = reserved ∷ m.reserved }

unfoldable pub call_reserve : Manager → Manager
unfolding take_nonce
call_reserve m = if is_some m.next_nonce then take_nonce m else record m { asking = m.asking + 1 }

-- The rest of `sync`, inside `reserve`.
unfoldable pub answer_reserve : ℕ → Manager → Manager
answer_reserve sequence m = record m {
  next_nonce = some sequence;
  asking = m.asking - 1;
  resuming = m.resuming + 1;
}

unfoldable pub resume_reserve : Manager → Manager
unfolding take_nonce
resume_reserve m = take_nonce (record m { resuming = m.resuming - 1 })

unfoldable pub handle : Event → Manager → Manager
unfolding call_reserve answer_reserve resume_reserve
handle reserve_called m = call_reserve m
handle (reserve_answered sequence) m = answer_reserve sequence m
handle reserve_resumed m = resume_reserve m
handle reserve_rejected m = record m { asking = m.asking - 1 }
handle sync_called m = record m { syncing = m.syncing + 1 }
handle (sync_answered sequence) m = record m { next_nonce = some sequence; syncing = m.syncing - 1 }
handle sync_rejected m = record m { syncing = m.syncing - 1 }
handle reset_called m = record m { next_nonce = none }

unfoldable pub run : List Event → Manager → Manager
unfolding handle
run [] m = m
run (e ∷ es) m = run es (handle e m)

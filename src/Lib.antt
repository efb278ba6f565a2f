-- ===== src/Lib.antt =====
-- The core logic of the Soulon wallet: what it signs and sends, how it retries and waits, how it
-- derives accounts and checks what it is given, the popup of its browser extension, and the session,
-- the pages and the backend client of its web application.
--
-- The program's parts, and where they are modelled:
--
--   soulon-wallet/src/core/types.ts       Core/Types.antt
--   soulon-wallet/src/core/errors.ts      Core/Errors.antt (mapTxError, mapBroadcastError)
--   soulon-wallet/src/core/broadcast.ts   Core/Broadcast.antt (broadcastWithRetry)
--   soulon-wallet/src/core/nonce.ts       Core/Nonce.antt (sync, reserve, reset)
--   soulon-wallet/src/core/tx.ts          Core/Poll.antt (waitForTx)
--   soulon-wallet/src/core/wallet.ts      Core/Account.antt (validation, paths, wallets)
--   soulon-wallet/src/core/identity.ts    Core/Identity.antt
--   soulon-wallet/src/config/network.ts   Core/Network.antt
--   soulon-wallet/src/services/*.ts       Services/*.antt, with the validation that staking.ts and
--                                         governance.ts share in Services/Checks.antt
--   wallet-app/src/api/client.ts          App/Client.antt (request), with api/errors.ts in
--                                         App/Errors.antt
--   soulon-wallet/src/core/bip21.ts       Core/Bip21.antt (generateBip21Uri, parseBip21Uri)
--   wallet-app/src/lib/bip21.ts           App/PaymentForm.antt
--   wallet-app/src/auth                   App/Session.antt (AuthProvider, RequireAuth)
--   wallet-app/src/pages/LoginPage.tsx    App/Login.antt (the two handlers)
--   wallet-app/src/lib/eventExport.ts     App/Export.antt (collectAllEvents), App/Csv.antt (the rest)
--   wallet-app/src/pages/EventsPage.tsx   App/EventsState.antt (filters, pages), App/EventsPage.antt
--   .../pages/EventDetailPage.tsx         App/EventDetailPage.antt (the effect that loads)
--   .../pages/HomePage.tsx                App/HomePage.antt (its handlers)
--   wallet-app/src/api/walletApi.ts       App/WalletApi.antt (the requests of events)
--   wallet-extension/src/popup            Popup/*.antt (store, screens and controller), with the
--                                         HTML of popup_screens.ts in Popup/Html.antt and Popup/Render
--
-- A service validates its input by the checks, which use Core.Account, and hands one request to
-- `broadcast_with_retry`, which runs the client, sorts what it answers by Core.Errors, and sleeps
-- between attempts. Core.Effects has the world that all of this runs in: the client of @cosmjs is a
-- record `Node` of three functions (submit a request, look a transaction up, read the clock) of
-- everything done so far, its function `coin` is a parameter that may throw, and a world is the log of what was sent, slept, polled and read. An
-- operation is a function from a world to a result and a world; an exception is a value of `Thrown`.
-- The web application's client is like that, over a record `Browser`. In the popup every event
-- handler is a case of one step function on the state of the store, and what it shows is rendered from
-- that state, in pieces of markup and of escaped text. The login page and the pages of events are step
-- functions of the same kind over the session that App.Session keeps; `URLSearchParams`, JSON and the
-- clock are parameters.
--
-- Conventions: a string that is only compared is a native string; one that is trimmed, walked or
-- joined is a list of its UTF-16 code units (`Text`), with the white space that `trim` and `\s` know.
-- `toLowerCase` is a parameter. Numbers are natural numbers, except where the program tests a number
-- for being a non-negative integer: there `Number` has the other numbers too. A date is its
-- milliseconds, in ℤ, or invalid, and a number of seconds is its milliseconds, in ℤ, or no integer. The digits of a number are exact below 2 ^ 53; the text of a larger
-- one is a parameter.
--
-- Bounds: the retry loops recur on the rounds that are left and the export on the pages that are
-- left, so they need no fuel. The polling loop takes fuel, one unit a round; Core.Poll.Wait shows how
-- much is enough for a clock that advances.
--
-- Not modelled: the encoding of messages and the key derivation of @cosmjs, the DOM, fee estimation
-- (floating point), the other pages of wallet-app, the Flutter application, the Go backend and the
-- chain.
pub mod Prelude
pub mod Core
pub mod Services
pub mod Popup
pub mod App

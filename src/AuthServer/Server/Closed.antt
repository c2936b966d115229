-- ===== src/AuthServer/Server/Closed.antt =====
-- What an error of `accept` does to the server.
use azerust.Prelude.{ℕ, ◌≡◌, ◌≢◌, refl, List, [], ◌∷◌}
use azerust.Prelude.Outcome.{Outcome, ok, err, panic}
use azerust.Bincode.{Bincode}
use azerust.Crypto.{Crypto}
use azerust.Game.Accounts.{AccountService}
use azerust.Game.Realms.{RealmList, RealmFlags, RealmListError}
use azerust.AuthServer.Server.{
  Incoming, failed, accepting, closed, Running, Event, arrives, connection_turn, datagram,
  update_turn, accept, go_on, unless_panic, turn, step, run, update,
}

module _ {A R : Type 0} (c : Crypto) (e : Bincode) (accounts : AccountService A)
    (realms : RealmList R) where
  -- What the server asks of its realm list: an update of the status fails at most with an error.
  abbrev NeverPanics : Type 0
  NeverPanics = (online : List (ℕ × RealmFlags)) (s : R) → (realms.update_status online s).0 ≢ panic

  -- the loop has returned, and the accounts are as they were then
  abbrev Deaf : A → Running A R → Type 0
  Deaf a r = (r.phase ≡ closed) × (r.server.accounts ≡ a)

  unless_panic_runs :
      (result : Outcome RealmListError (Unit {0})) (r : Running A R)
      → result ≢ panic
      → unless_panic c e accounts realms result r ≡ ok r
  unfolding unless_panic
  unless_panic_runs (ok _) r calm = refl
  unless_panic_runs (err _) r calm = refl
  unless_panic_runs panic r calm = absurd (calm refl)

  turn-Deaf :
      (event : Event) (a : A) (r : Running A R)
      → NeverPanics
      → Deaf a r
      → (r' : Running A R) × (turn c e accounts realms event r ≡ ok r') × Deaf a r'
  unfolding turn update go_on
  turn-Deaf (arrives incoming) a r calm d = (_, refl, d)
  turn-Deaf connection_turn a r calm d = (r, rw (d.0) refl, d)
  turn-Deaf (datagram now bytes) a r calm d = (_, refl, d)
  turn-Deaf (update_turn now) a r calm d = (_, unless_panic_runs _ _ (calm _ _), d)

  run-Deaf :
      (events : List Event) (a : A) (r : Running A R)
      → NeverPanics
      → Deaf a r
      → (r' : Running A R) × (run c e accounts realms events r ≡ ok r') × Deaf a r'
  unfolding run step
  run-Deaf [] a r calm d = (r, refl, d)
  run-Deaf (event ∷ rest) a r calm d =
      let (b, first, d') = turn-Deaf event a r calm d in
      let (r', more, d'') = run-Deaf rest a b calm d' in (r', rw first more, d'')

  -- One error of `accept` closes the server for good, and does not end it, given a realm list whose
  -- updates never panic: whatever happens later, the server runs on, no connection is served any more,
  -- and the accounts stay as they are.
  pub accept_error_closes :
      (others : List Incoming) (later : List Event) (r : Running A R)
      → ((online : List (ℕ × RealmFlags)) (s : R) → (realms.update_status online s).0 ≢ panic)
      → r.phase ≡ accepting
      → r.backlog ≡ failed ∷ others
      → (r' : Running A R) × (run c e accounts realms (connection_turn ∷ later) r ≡ ok r')
        × (r'.phase ≡ closed)
        × (r'.server.accounts ≡ r.server.accounts)
  unfolding run step turn go_on accept
  accept_error_closes others later r calm at first =
      let (r', runs, d) =
        run-Deaf later r.server.accounts (record r { phase = closed; backlog = others }) calm
          (refl, refl) in
      (r', rw (at, first) runs, d.0, d.1)

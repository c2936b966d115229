-- ===== src/AuthServer/Server/Runs.antt =====
-- The rule for runs of the auth server: what every turn keeps, a run keeps.
use mathlib.Core.Path.{subst}
use azerust.Prelude.{◌≡◌, List, [], ◌∷◌}
use azerust.Prelude.Outcome.{Outcome, ok, err, panic, bind_ok}
use azerust.Bincode.{Bincode}
use azerust.Crypto.{Crypto}
use azerust.Utils.{flatten-ok}
use azerust.Game.Accounts.{AccountService}
use azerust.Game.Realms.{RealmList, RealmListError}
use azerust.AuthServer.Server.{Running, Event, unless_panic, turn, step, run}

module _ {A R : Type 0} (c : Crypto) (e : Bincode) (accounts : AccountService A)
    (realms : RealmList R) where
  pub run_keeps :
      (P : Running A R → Type 0)
      → ((event : Event) (r r' : Running A R)
          → turn c e accounts realms event r ≡ ok r'
          → P r
          → P r')
      → (events : List Event) (r r' : Running A R) → run c e accounts realms events r ≡ ok r'
      → P r
      → P r'
  unfolding run step
  run_keeps P keeps [] r r' h p = let same : r ≡ r' = cc in subst P same p
  run_keeps P keeps (event ∷ rest) r r' h p =
      let (between, first, more) =
        bind_ok (step c e accounts realms event r) (run c e accounts realms rest) r' h in
      run_keeps P keeps rest between r' more
        (keeps event r between (flatten-ok (turn c e accounts realms event r) between first) p)

  pub unless_panic_ok :
      (result : Outcome RealmListError (Unit {0})) (r r' : Running A R)
      → unless_panic c e accounts realms result r ≡ ok r'
      → r ≡ r'
  unfolding unless_panic
  unless_panic_ok (ok _) r r' h = cc
  unless_panic_ok (err _) r r' h = cc
  unless_panic_ok panic r r' h = cc

-- ===== src/Graphql.antt =====
-- crates/graphql: the queries and mutations of the HTTP interface, over the account service and the
-- realm list that `create_schema` puts into their context.
pub mod Registered
pub mod Banned
pub mod Secrets
use azerust.Prelude.{ℕ, ◌*◌, ◌%◌, ◌^◌, Option, some, none, Bool, true, false, not, List, map, ◌==◌}
use mathlib.Core.Option
use azerust.Prelude.Text.{codes}
use azerust.Prelude.Exec.{Exec, pure, raise_as, ◌>>=◌, ◌>>◌}
use azerust.Game.Accounts
use azerust.Game.Accounts.{AccountService, AccountOpError, AccountFetchError}
use azerust.Game.Realms
use azerust.Game.Realms.{RealmList, RealmType, normal, pvp, rp, rp_pvp}

-- what the resolvers of `Account` give
pub record Account : Type 0 where
  pub username : List ℕ
  pub email : List ℕ
  pub joindate : ℕ
  pub last_login : Option ℕ
  pub online : Bool

unfoldable pub account_from : Accounts.Account → Account
account_from a = record {
  username = a.username;
  email = a.email;
  joindate = a.joindate;
  last_login = a.last_login;
  online = not (a.online == 0);
}

-- what the resolvers of `Realm` give
pub record Realm : Type 0 where
  pub name : List ℕ
  pub realm_type : List ℕ
  pub build : ℕ
  pub ip : List ℕ
  pub port : ℕ
  pub timezone : ℕ

-- `RealmType::to_string`
pub realm_type_name : RealmType → List ℕ
realm_type_name normal = codes "Normal"
realm_type_name pvp = codes "PVP"
realm_type_name rp = codes "RP"
realm_type_name rp_pvp = codes "RPPvP"

unfoldable pub realm_from : Realms.Realm → Realm
unfolding realm_type_name
realm_from r = record {
  name = r.name;
  realm_type = realm_type_name r.realm_type;
  build = r.build;
  ip = r.external_address;
  port = r.port;
  timezone = r.timezone;
}

pub record UserCreate : Type 0 where
  pub username : List ℕ
  pub email : List ℕ
  pub password : List ℕ

-- `FieldError`, made of the error of the service
pub data FieldError : Type 0 where
  operation : AccountOpError → FieldError
  fetch : AccountFetchError → FieldError

-- `d.days * 86400`, a product of u64
unfoldable pub ban_seconds : ℕ → ℕ
ban_seconds days = days * 86400 % 2 ^ 64

-- `Duration::from_secs`, in milliseconds
unfoldable pub ban_millis : ℕ → ℕ
ban_millis days = ban_seconds days * 1000

module _ {A : Type 0} (accounts : AccountService A) where
  unfoldable pub register_user : UserCreate → Exec A FieldError ℕ
  register_user user =
      raise_as operation (accounts.create_account user.username user.password user.email)

  -- the account, the days of the ban, and the reason
  unfoldable pub set_ban_status : ℕ → Option ℕ → Option (List ℕ) → Exec A FieldError Bool
  set_ban_status id duration reason = do
    raise_as operation
        (accounts.set_ban id (codes "arlyon") (Option.map ban_millis duration) reason)
    pure true

  unfoldable pub get_users : Exec A FieldError (List Account)
  get_users = do users ← raise_as fetch accounts.list_account; pure (map account_from users)

  unfoldable pub get_user : List ℕ → Exec A FieldError (Option Account)
  get_user username = do
    user ← raise_as operation (accounts.get_by_username username)
    pure (Option.map account_from user)

unfoldable pub get_realms : {R : Type 0} → RealmList R → R → List Realm × R
get_realms realms r = let (rows, r') = realms.realms r in (map realm_from rows, r')

-- ===== src/WorldServer/World.antt =====
-- services/world/src/world/world.rs: the world, which handles the packets of all sessions, one after the
-- other. The sessions stand in its map; a task that holds one finds it there by its client's number.
pub mod Creation
pub mod Isolation
pub mod Joining
use azerust.Prelude.{
  ℕ, Option, some, none, Bool, true, false, not, List, [], ◌∷◌, ◌++◌, map, replicate, if◌then◌else◌,
}
use azerust.Prelude.Maps.{find, insert}
use azerust.Prelude.Outcome.{Outcome, Never, ok, err, panic, ok_or, map_err}
use azerust.Prelude.Exec.{
  Exec, pure, lift, gets, modify, stop, raise_as, match_result, on_part, ◌>>=◌, ◌>>◌,
}
use azerust.Bincode.{Bincode}
use azerust.Game.Characters.{
  Character, CharacterCreate, AccountData, DualDataCache, CharacterService, CharacterServiceError,
}
use azerust.Game.Ids.{character_id_from}
use azerust.Game.Realms.{RealmList}
use azerust.Protocol.World.{
  ResponseCode, char_create_success, char_create_name_in_use, char_delete_success,
  char_delete_failed,
}
use azerust.Protocol.HeaderCrypto.{Ciphers}
use azerust.Protocol.Packets.{
  Addon, Item, NewCharacter, ClientPacket, auth_session, keep_alive, ping,
  ready_for_account_data_times, char_enum, realm_split, character_create, player_login,
  character_delete, ServerPacket,
}
use azerust.Protocol.Packets
use azerust.WorldServer.Names.{name_problem}
use azerust.WorldServer.Socket.{Writer}
use azerust.WorldServer.ServerPackets.{
  SessionError, no_account, no_account_data, no_character_list, not_created, no_character,
  invalid_guid,
}
use azerust.WorldServer.Session.{
  Client, Clock, Session, login, reset_timeout, set_latency, send_packet, new_session,
}

-- `AccountData::default()`
abbrev pub default_account_data : AccountData
default_account_data =
    let blank : DualDataCache = record { global = none; per_char = none } in
    record {
      config = blank;
      bindings = blank;
      macros = blank;
      per_char_layout = none;
      per_char_chat = none;
    }

abbrev pub no_items : List Item
no_items = replicate 23 (record { display = 0; inventory = 0; aura = 0 })

-- the character at the start of the dwarves; the floats -6240.32, 331.033 and 382.758
unfoldable pub new_character : NewCharacter → CharacterCreate
new_character c = record {
  name = c.name;
  race = c.race;
  class = c.class;
  gender = c.gender;
  skin_color = c.skin_color;
  face = c.face;
  hair_style = c.hair_style;
  hair_color = c.hair_color;
  facial_style = c.facial_style;
  map_id = 0;
  zone = 1;
  position_x = 3317891727;
  position_y = 1134920761;
  position_z = 1136615686;
}

module _ (k : Ciphers) (C : Type 0) where
  -- what `handle_packet` works on: the session of the client, and the character service
  pub record Handling : Type 0 where
    pub session : Session k
    pub characters : C

  pub record World : Type 0 where
    pub sessions : List (ℕ × Session k)
    pub receiver : List (ℕ × ClientPacket)
    pub characters : C

module _ (k : Ciphers) (e : Bincode) {C : Type 0} (service : CharacterService C)
    (clock : Clock) where
  abbrev Handler : Type 0 → Type 0
  Handler A = Exec (Handling k C) SessionError A

  abbrev on_session : {A : Type 0} → Exec (Session k) SessionError A → Handler A
  on_session m = on_part (λ x. x.session) (λ x s. record x { session = s }) m

  abbrev on_characters : {E A : Type 0} → Exec C E A → Exec (Handling k C) E A
  on_characters m = on_part (λ x. x.characters) (λ x s. record x { characters = s }) m

  send : ServerPacket → Handler (Unit {0})
  send p = on_session (send_packet k e clock p)

  data_of : Option ℕ → Handler AccountData
  data_of none = pure default_account_data
  data_of (some id) = raise_as (λ _. no_account_data) (on_characters (service.account_data id))

  account : Handler ℕ
  account x = (ok_or x.session.client.account no_account, x)

  -- `name_available(&name).await.unwrap_or(false)`
  available : List ℕ → Handler Bool
  available name = match_result (on_characters (service.name_available name)) pure (λ _. pure false)

  make : NewCharacter → Handler (Unit {0})
  unfolding account new_character
  make c = do
    id ← account
    raise_as (λ _. not_created) (on_characters (service.create_character id (new_character c)))

  create : NewCharacter → Option ResponseCode → Handler (Unit {0})
  unfolding make send
  create c (some code) = send (Packets.character_create code)
  create c none = make c >> send (Packets.character_create char_create_success)

  unfoldable pub handle_create : NewCharacter → Handler (Unit {0})
  unfolding create available name_problem send
  handle_create c = do
    free ← available c.name
    (if not free
        then send (Packets.character_create char_create_name_in_use)
        else create c (name_problem c.name))

  unfoldable pub handle_packet : ClientPacket → Handler (Unit {0})
  unfolding send data_of account handle_create
  handle_packet (auth_session _) = pure tt
  handle_packet keep_alive = on_session (reset_timeout k clock)
  handle_packet (ping seq latency) = on_session (set_latency k latency) >> send (Packets.pong seq)
  handle_packet ready_for_account_data_times = do
    id ← gets λ x. x.session.client.account
    times ← data_of id
    send (Packets.account_data_times times)
  handle_packet char_enum = do
    id ← account
    characters ← raise_as (λ _. no_character_list) (on_characters (service.get_by_account id))
    send (Packets.char_enum (map (λ c. (c, no_items)) characters))
  handle_packet (realm_split realm) = send (Packets.realm_split realm)
  handle_packet (character_create c) = handle_create c
  handle_packet (player_login guid) = do
    id ← lift (map_err (λ _. invalid_guid) (character_id_from guid))
    character ← raise_as (λ _. no_character) (on_characters (service.get id))
    on_session (login k character)
  handle_packet (character_delete guid) = do
    id ← lift (map_err (λ _. invalid_guid) (character_id_from guid))
    match_result (on_characters (service.delete_character id))
        (λ _. send (Packets.character_delete char_delete_success))
        (λ _. send (Packets.character_delete char_delete_failed))

  -- an error is logged
  logged : Outcome SessionError (Unit {0}) → Outcome Never (Unit {0})
  logged (ok _) = ok tt
  logged (err _) = ok tt
  logged panic = panic

  handle_for : ℕ → ClientPacket → Option (Session k) → Exec (World k C) Never (Unit {0})
  unfolding logged handle_packet
  handle_for id packet none w = (ok tt, w)
  handle_for id packet (some session) w =
      let (r, x) = handle_packet packet (record { session = session; characters = w.characters }) in
      (logged r, record w { sessions = insert id x.session w.sessions; characters = x.characters })

  -- one round of `handle_packets`, for a packet that is there
  unfoldable pub handle_next : Exec (World k C) Never (Unit {0})
  unfolding handle_for
  handle_next w = elim w.receiver [
    | [] ↦ (ok tt, w)
    | (id, packet) ∷ rest ↦ handle_for id packet (find id w.sessions) (record w { receiver = rest })
  ]

  inserted :
      World k C
      → Outcome (SessionError × Writer) (Session k)
      → Outcome (SessionError × Writer) (Unit {0}) × World k C
  inserted w (ok session) =
      (ok tt, record w { sessions = insert session.client_id session w.sessions })
  inserted w (err error) = (err error, w)
  inserted w panic = (panic, w)

  unfoldable pub create_session :
      Client → Writer → List ℕ → List Addon → Exec (World k C) (SessionError × Writer) (Unit {0})
  unfolding inserted
  create_session client writer session_key addons w =
      inserted w (new_session k e clock client writer session_key addons)

-- A tick of the timer for the uptime, whose error is logged; the population is 0.
unfoldable pub tick_uptime : {R : Type 0} → RealmList R → ℕ → ℕ → Exec R Never (Unit {0})
tick_uptime realms id start = match_result (realms.set_uptime id start 0) pure (λ _. pure tt)

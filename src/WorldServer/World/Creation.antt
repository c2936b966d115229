-- ===== src/WorldServer/World/Creation.antt =====
-- Creating and deleting characters over the MySQL service.
use azerust.Prelude.{
  ℕ, ◌≡◌, refl, Option, some, none, Bool, true, false, List, [], length, ◌==◌, Bool-cases,
  Option-cases, inl, inr,
}
use azerust.Prelude.Outcome.{ok}
use azerust.Bincode.{Bincode}
use azerust.Game.Characters.{Character}
use azerust.Game.Ids.{character_id_from}
use azerust.MysqlAuth.Db.{all_where}
use azerust.MysqlCharacters.{Db, service}
use azerust.MysqlCharacters.Roster.{
  created, deleted, name_available_up, create_character_up, delete_character_up,
}
use azerust.Protocol.World.{ResponseCode, char_delete_success}
use azerust.Protocol.HeaderCrypto.{Ciphers}
use azerust.Protocol.Packets
use azerust.Protocol.Packets.{NewCharacter, character_create, character_delete}
use azerust.WorldServer.Names.{name_problem, answer, answer_used, answer_fine, answer_wrong}
use azerust.WorldServer.Session.{Clock, send_packet}
use azerust.WorldServer.World.{
  Handling, send, account, available, make, create, handle_create, handle_packet, new_character,
}

module _ (k : Ciphers) (e : Bincode) (same_text : List ℕ → List ℕ → Bool) (clock : Clock) where
  -- no character has that name
  abbrev pub is_free : Db → List ℕ → Bool
  is_free s name = length (all_where (λ (r : Character). same_text r.name name) s.characters) == 0

  available_lem :
      (name : List ℕ) (x : Handling k Db)
      → x.characters.faults ≡ []
      → available k e (service same_text) clock name x ≡ (ok (is_free x.characters name), x)
  unfolding available
  available_lem name x up = rw (name_available_up same_text name x.characters up) refl

  make_lem :
      (c : NewCharacter) (id : ℕ) (x : Handling k Db)
      → x.characters.faults ≡ []
      → x.session.client.account ≡ some id
      → make k e (service same_text) clock c x
        ≡ (ok tt, record x { characters = created id (new_character c) x.characters })
  unfolding make account
  make_lem c id x up known =
      rw (known, create_character_up id (new_character c) x.characters up) refl

  -- the tables behind the request, given whether the name is free and what is wrong with it
  abbrev pub outcome : Bool → Option ResponseCode → ℕ → NewCharacter → Db → Db
  outcome true none id c s = created id (new_character c) s
  outcome true (some code) id c s = s
  outcome false problem id c s = s

  -- With the database up, the request for a new character of a client that is logged in is always
  -- answered: the character is created, for the account of the session, where its name is free and
  -- nothing is wrong with it, and otherwise nothing changes; the client is sent the code that says so.
  pub handle_create_lem :
      (c : NewCharacter) (id : ℕ) (x : Handling k Db)
      → x.characters.faults ≡ []
      → x.session.client.account ≡ some id
      → let free = is_free x.characters c.name in
        let sent =
          send_packet k e clock (Packets.character_create (answer free c.name)) x.session in
        handle_packet k e (service same_text) clock (character_create c) x ≡ (
          sent.0,
          record {
            session = sent.1;
            characters = outcome free (name_problem c.name) id c x.characters;
          },
        )
  unfolding handle_packet handle_create create send
  handle_create_lem c id x up known = elim (Bool-cases (is_free x.characters c.name)) [
    | inr used ↦ rw (available_lem c.name x up, used, answer_used c.name) refl
    | inl free ↦ elim (Option-cases (name_problem c.name)) [
      | inl fine ↦
          rw
            (
              available_lem c.name x up,
              free,
              fine,
              make_lem c id x up known,
              answer_fine c.name fine,
            )
            refl
      | inr (code, wrong) ↦
          rw (available_lem c.name x up, free, wrong, answer_wrong c.name code wrong) refl
    ]
  ]

  -- With the database up, any client deletes any character: the one with the number that it sends,
  -- which has to be of a player, is gone, whatever account the session and the character belong to,
  -- and the client is told so.
  pub handle_delete_lem :
      (guid : ℕ) (x : Handling k Db)
      → x.characters.faults ≡ []
      → character_id_from guid ≡ ok guid
      → let sent = send_packet k e clock (Packets.character_delete char_delete_success) x.session in
        handle_packet k e (service same_text) clock (character_delete guid) x
        ≡ (sent.0, record { session = sent.1; characters = deleted guid x.characters })
  unfolding handle_packet send
  handle_delete_lem guid x up player = rw (player, delete_character_up guid x.characters up) refl

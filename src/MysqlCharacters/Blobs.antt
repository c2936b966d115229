-- ===== src/MysqlCharacters/Blobs.antt =====
-- The blobs of an account.
use azerust.Prelude.{
  ℕ, ◌≡◌, refl, Option, some, none, List, [], ◌∷◌, map, arith, ◌==◌, if◌then◌else◌,
}
use azerust.Prelude.Outcome.{ok}
use azerust.Game.Characters.{AccountDataCache, AccountData, items}
use azerust.MysqlAuth.Db.{all_where}
use azerust.MysqlCharacters.{
  Db, DataRow, Blobs, insert, collect, account_data_of, account_data, attempt,
}

-- The last row of a kind, or what was there before the rows.
abbrev pub last_of_kind : ℕ → List DataRow → Option AccountDataCache → Option AccountDataCache
last_of_kind k [] before = before
last_of_kind k (r ∷ rest) before =
    last_of_kind k rest (if r.kind == k then some r.cache else before)

collect_lem :
    (k : ℕ) (rows : List DataRow) (m : Blobs) → collect rows m k ≡ last_of_kind k rows (m k)
unfolding collect
collect_lem k [] m = refl
collect_lem k (r ∷ rest) m = collect_lem k rest (insert r.kind r.cache m)

-- With the database up, the eight blobs of an account are, by their number, those of the last of its
-- rows of that kind.
pub items-account_data :
    (id : ℕ) (s : Db)
    → s.faults ≡ []
    → (d : AccountData) × ((account_data id s).0 ≡ ok d)
      × (items d
          ≡ map
              (λ k.
                last_of_kind k
                  (all_where (λ (r : DataRow). r.account_id == id) s.account_data)
                  none)
              (0 ∷ 1 ∷ 2 ∷ 3 ∷ 4 ∷ 5 ∷ 6 ∷ 7 ∷ []))
unfolding account_data items account_data_of attempt
items-account_data id s up =
    let rows = all_where (λ (r : DataRow). r.account_id == id) s.account_data in
    (
      account_data_of (collect rows (λ j. none)),
      ground arith,
      simp (λ (k : ℕ). collect_lem k rows (λ j. none)) refl,
    )

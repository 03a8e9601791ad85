-- ===== src/Chain/LevelDb.antt =====
-- What the source relies on of LevelDB, which is not part of this repository: `Get` finds a value,
-- does not, or fails, and a `WriteBatch` that is written takes effect in the order of its updates.
use bitcoin_toolkit.Common.{
  ◌≡◌, refl, Option, none, some, List, [], ◌∷◌, ◌++◌, Bytes, bytes_eq, if◌then◌else◌, Result, ok,
  err, BtkError,
}

pub data Status : Type 0 where
  found : Bytes → Status
  not_found : Status
  failed : Status

pub data Update : Type 0 where
  put : Bytes → Bytes → Update
  delete : Bytes → Update

abbrev pub WriteBatch : Type 0
WriteBatch = List Update

-- What `Get` of the key `k` returns after the updates, if it returned `s` before.
unfoldable pub replay : WriteBatch → Bytes → Status → Status
replay [] k s = s
replay (put j v ∷ ops) k s = replay ops k (if bytes_eq j k then found v else s)
replay (delete j ∷ ops) k s = replay ops k (if bytes_eq j k then not_found else s)

pub replay-append :
    (a b : WriteBatch) (k : Bytes) (s : Status) → replay (a ++ b) k s ≡ replay b k (replay a k s)
unfolding replay
replay-append [] b k s = refl
replay-append (put j v ∷ a) b k s = replay-append a b k _
replay-append (delete j ∷ a) b k s = replay-append a b k _

pub record LevelDb : Type 1 where
  pub Db : Type 0
  pub get : Db → Bytes → Status
  -- `none` where `Write` reports an error.
  pub write : Db → WriteBatch → Option Db
  pub get-write :
      (db db' : Db) (ops : WriteBatch) (k : Bytes)
      → write db ops ≡ some db'
      → get db' k ≡ replay ops k (get db k)

module _ (L : LevelDb) where
  open L use {Db, get}

  -- `read_key`, with the error that it throws where `Get` fails.
  unfoldable pub read_key : BtkError → Db → Bytes → Result (Option Bytes)
  read_key e db k = elim (get db k) [ found v ↦ ok (some v) | not_found ↦ ok none | failed ↦ err e ]

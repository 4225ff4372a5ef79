-- ===== src/Server/Pages.antt =====
-- The handlers `metadata` and `index` of src/bin/server.rs. The format of dates is chrono's.
use sto.Prelude.{◌>>=◌, ℕ, Option, none, some, List, [], ◌∷◌, ◌++◌, get, values}
use sto.Text.{codes}
use sto.Defs.{Text, Executable}
use sto.Server.Db.{Db}

-- select * from executable where id=$1; none is the panic of `fetch_one` without a row.
unfoldable pub metadata : ℕ → Db → Option Executable
metadata id db = get db.executables id

pub record TemplateListing : Type 0 where
  pub name : Text
  pub id : ℕ
  pub date : Text

module _ (format : ℕ → Text) where
  -- `x.created_at.unwrap()` in the closure
  unfoldable pub listing : Executable → Option ℕ → Option TemplateListing
  listing x none = none
  listing x (some created) = some (record { name = x.basename; id = x.id; date = format created })

  unfoldable pub listings : List Executable → Option (List TemplateListing)
  listings [] = some []
  listings (x ∷ pb) = do head ← listing x x.created_at; rest ← listings pb; some (head ∷ rest)

  abbrev dummy_listing : ℕ → TemplateListing
  dummy_listing now = record { name = codes "somename"; id = 123; date = format now }

  -- The binaries of the template's data; `now` is the time of the request.
  unfoldable pub index : ℕ → Db → Option (List TemplateListing)
  index now db = do
    template_listing ← listings (values db.executables)
    some (template_listing ++ dummy_listing now ∷ [])

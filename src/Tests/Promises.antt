-- ===== src/Tests/Promises.antt =====
-- The promise of the metadata store at concrete inputs.
use jario.Base.{◌≡◌, List, [], ◌∷◌}
use jario.Text.Decimal.{format_int}
use jario.MetaStore.Ops.{get_object}
use jario.MetaStore.Spec.{view, promised_get}
use jario.MetaStore.Commands
use jario.MetaStore.Commands.{Command, stores, erases, run_all, promised_all}
use jario.MetaStore.PromisedReads
use jario.Tests.Data.{photos, cat, upload, filled}
use jario.Tests.Metadata.{filled-Opened, filled-AreValid}

-- A put, the removal of the first version, and a delete marker.
abbrev commands : List Command
commands =
    stores photos cat upload ∷ erases photos cat (format_int 1) 9 ∷ erases photos cat [] 10 ∷ []

run_all-promised_all_example :
    ((run_all filled commands).0 ≡ (promised_all (view filled) commands).0)
    × (view (run_all filled commands).1 ≡ (promised_all (view filled) commands).1)
run_all-promised_all_example =
    Commands.run_all-promised_all filled commands
      (filled-Opened, (filled-Opened, (filled-Opened, tt)))

get_object-promised_get_example :
    get_object filled photos cat [] ≡ promised_get (view filled) photos cat []
get_object-promised_get_example =
    PromisedReads.get_object-promised_get filled photos cat [] filled-AreValid

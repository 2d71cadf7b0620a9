-- ===== src/Spend/Tests.antt =====
-- One user, charged while a flush is under way, and a flush that fails for another.
use songguo.Prelude.{◌≡◌, ◌≢◌, refl, false, some, [], ◌∷◌, String, arith, str_eq, eq_iff}
use songguo.Prelude.Int.{ℤ, pos, ◌+ℤ◌}
use songguo.Prelude.Map.{Map, lookup, get_or, insert}
use songguo.Spend.{Tracker, get_loaded, settle, forget, pending_of, add, load, dirty, dirty_in}
use songguo.Spend.Flush.{Faults, flush}
use songguo.Spend.Flush.Saves.{spend_of}
use songguo.Spend.Flush.Rounds.{flush-spend_of}
use songguo.Spend.System.{
  System, boot, charge, read, forgot, Reach, here, next, adds, reads, forgets, disk_of,
}
use songguo.Spend.System.Balance.{owed}
use songguo.Spend.System.Answers.{Answer, from_store, Get-owed}
use songguo.Spend.System.Crashes.{unsaved, disk-owed}
use songguo.Spend.System.Forgotten.{settle-forget}

abbrev table : Map ℤ
table = ("ann", pos 10) ∷ []

-- A call of `Get` has loaded the row when a charge arrives and another user is forgotten.
abbrev charged_while_read : System
charged_while_read = forgot "bob" (charge "ann" (pos 5) (read 0 "ann" (pos 10) (boot table)))

charged_while_read_reached : Reach (boot table) charged_while_read
unfolding load lookup
charged_while_read_reached =
    next (next (next here (reads 0 "ann" (pos 10) (boot table) refl)) (adds "ann" (pos 5) _))
      (forgets "bob" _)

ann_named : ◌≢◌ {A = String} "ann" ""
ann_named = ground (arith, eq_iff "ann" "")

ann_answer : Answer "ann" charged_while_read (pos 15)
unfolding songguo.Spend.get_stored songguo.Spend.adopt add forget lookup get_or insert
    songguo.Prelude.Map.erase ◌+ℤ◌
ann_answer = from_store 0 (pos 10) refl refl

Get-owed_example : pos 15 ≡ owed table "ann" charged_while_read
Get-owed_example =
    Get-owed table "ann" charged_while_read (pos 15) ann_named charged_while_read_reached refl
      ann_answer

disk-owed_example :
    disk_of "ann" charged_while_read +ℤ unsaved "ann" charged_while_read
    ≡ owed table "ann" charged_while_read
disk-owed_example =
    disk-owed table "ann" charged_while_read ann_named charged_while_read_reached refl

abbrev two_charged : Tracker
two_charged = record { total = []; pending = ("ann", pos 5) ∷ ("bob", pos 7) ∷ [] }

abbrev bob_fails : Faults
bob_fails = record { load_fails = λ u. false; save_fails = λ u. str_eq u "bob" }

flush-spend_of_example :
    spend_of "bob"
      (flush bob_fails two_charged table).tracker
      (flush bob_fails two_charged table).disk
    ≡ spend_of "bob" two_charged table
unfolding lookup
flush-spend_of_example = flush-spend_of bob_fails two_charged table "bob" tt

settle-forget_example :
    get_loaded "ann" (settle "ann" (pos 10) (pos 5) (forget "ann" two_charged)) ≡ some (pos 10)
settle-forget_example = settle-forget "ann" (pos 10) (pos 5) two_charged

-- ===== src/SessionTable/Tests.antt =====
-- A table with one session, before and after a rekey.
use norr.Prelude.{◌≡◌, refl, arith, some, ok, replicate, false, length}
use norr.Prelude.Maps.{find, has, erase}
use norr.Crypto.{TrafficKeys}
use norr.Session.{Session, new_session}
use norr.SessionTable.{
  SessionTable, empty_table, install, replace_existing, forget_retired, find_by_peer,
}
use norr.SessionTable.Allocation.{Allocated, allocate_key_id-Allocated}
use norr.SessionTable.Ownership.{Installed, install-Installed}
use norr.SessionTable.Lifetime.{Reached, start, installs, find_by_peer-Owns, Reached-Owns}

abbrev keys : TrafficKeys
keys = record { key = replicate 32 7; generation = 1 }

abbrev first : Session
first = new_session 8 1 6 keys keys 0

abbrev second : Session
second = new_session 8 2 7 keys keys 50

abbrev table : SessionTable
table = (install 10 8 1 first empty_table).1

table-Reached : Reached table
table-Reached = installs 10 8 1 first start empty_free refl
  where
    empty_free : has empty_table.sessions 1 ≡ false
    empty_free = unfold has in refl

table_free : has table.sessions 2 ≡ false
unfolding install replace_existing has erase find forget_retired
table_free = refl

install_second : (install 60 8 2 second table).0 ≡ ok second
unfolding install replace_existing has erase find forget_retired
install_second = refl

table_mapped : find table.by_peer 8 ≡ some 1
unfolding install replace_existing has erase find forget_retired
table_mapped = refl

allocate_key_id-Allocated_example : Allocated table
allocate_key_id-Allocated_example =
    allocate_key_id-Allocated table (omega (arith, next_is_one)) (omega (arith, one_session))
  where
    next_is_one : table.next_key_id ≡ 1
    next_is_one = unfold install replace_existing has erase find forget_retired in refl

    one_session : length table.sessions ≡ 1
    one_session = unfold install replace_existing has erase find forget_retired in refl

install-Installed_example : Installed 60 8 2 second table (install 60 8 2 second table).1
install-Installed_example =
    install-Installed 60 8 2 second second table (Reached-Owns table table-Reached) table_free
      install_second

find_by_peer-Owns_example : (s : Session) × ((find_by_peer 8 table).0 ≡ some s) × (s.peer ≡ 8)
find_by_peer-Owns_example = find_by_peer-Owns table 8 1 table-Reached table_mapped

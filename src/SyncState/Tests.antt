-- ===== src/SyncState/Tests.antt =====
-- A cursor of a running crawler, and one that is paused.
use odatano.Base.{ℕ, ◌≡◌, refl, true, false, none, some, List, [], ◌∷◌, arith}
use odatano.SyncState.{SyncCursor, CrawlPoint, new_cursor, syncing, synced}
use odatano.SyncState.Cursor.{advance_cursor}
use odatano.SyncState.Operations.{Op, acquires, advances, records, latches, imports, renews, run}
use odatano.SyncState.Pause.{IsPaused, NoneLed, stopped_crawler_stands_still}
use odatano.SyncState.Leadership.{IsMine, NoneGranted, others_cannot_move_cursor}
use odatano.SyncState.Streak.{StandsAs, HasStreak, arrived, record_all, errors_since_advance}

abbrev start : CrawlPoint
start = record { slot = 100; hash = 7; height = some 5 }

abbrev next : CrawlPoint
next = record { slot = 120; hash = 8; height = some 6 }

abbrev led : SyncCursor
led = record (new_cursor 1 (some start)) { lease = record { owner = some 1; until = some 500 } }

abbrev paused : SyncCursor
paused = record led { desired_running = false }

abbrev tries_of_2 : List Op
tries_of_2 =
    acquires (some led) 2 200 100
    ∷ imports (some led) 2 210 100
    ∷ advances next none syncing none 2 220 100
    ∷ latches 3 230
    ∷ records 4 2 240 100
    ∷ []

others_cannot_move_cursor_example :
    IsMine 1 500 100 5 (some 7) (run tries_of_2 (some led))
    × NoneGranted 1 500 100 5 (some 7) tries_of_2 (some led)
others_cannot_move_cursor_example =
    others_cannot_move_cursor 1 500 100 5 (some 7) tries_of_2 (some led) (ground arith)
      (ground arith)

abbrev tries_of_1 : List Op
tries_of_1 =
    renews 1 200 100
    ∷ advances next none syncing none 1 220 100
    ∷ records 4 1 240 100
    ∷ acquires (some paused) 1 900 100
    ∷ []

stopped_crawler_stands_still_example :
    IsPaused 100 5 0 (some 7) (run tries_of_1 (some paused))
    × NoneLed 100 5 0 (some 7) tries_of_1 (some paused)
stopped_crawler_stands_still_example =
    stopped_crawler_stands_still 100 5 0 (some 7) tries_of_1 (some paused) (ground arith)
      (ground arith)

abbrev errors : List (ℕ × ℕ)
errors = (1, 210) ∷ (2, 220) ∷ []

errors_since_advance_example :
    let s' = (advance_cursor next none synced none (some 1) 200 100 (some led)).1 in
    ((advance_cursor next none synced none (some 1) 200 100 (some led)).0 ≡ true)
    × StandsAs 1 100 (arrived 1 100 next none none 200 led) (record_all 1 100 errors s')
    × HasStreak 1 100 2 syncing (record_all 1 100 errors s')
errors_since_advance_example =
    errors_since_advance 1 100 next none synced none 200 errors led refl refl

-- ===== src/Workqueue/Counts.antt =====
-- Counting the threads of a workqueue by where they stand.
use common_project_template.Base.{ℕ, ◌+◌, ◌≤◌, ◌≡◌, refl, true, List, [], ◌++◌, ◌∷◌, arith, length}
use common_project_template.Workqueue.{Phase, created, finishing, waiting, woken, running}
use common_project_template.Workqueue.Threads.{among, all_awake}

-- 1 for a thread that will look for work without being woken.
abbrev pub active : Phase → ℕ
active waiting = 0
active created = 1
active finishing = 1
active woken = 1
active (running work) = 1

-- 1 for a thread that `nr_worker` counts.
abbrev pub started : Phase → ℕ
started created = 0
started finishing = 1
started waiting = 1
started woken = 1
started (running work) = 1

-- 1 for a thread that `nr_idle_worker` counts.
abbrev pub idle : Phase → ℕ
idle waiting = 1
idle woken = 1
idle created = 0
idle finishing = 0
idle (running work) = 0

abbrev pub any : Phase → ℕ
any phase = 1

abbrev pub count : (Phase → ℕ) → List Phase → ℕ
count f [] = 0
count f (phase ∷ threads) = f phase + count f threads

pub count-append :
    (f : Phase → ℕ) (xs ys : List Phase) → count f (xs ++ ys) ≡ count f xs + count f ys
count-append f [] ys = omega arith
count-append f (x ∷ xs) ys = omega (arith, count-append f xs ys)

-- The threads beside the ones between `before` and `after` are counted by themselves.
pub count-among :
    (f : Phase → ℕ) (before after here : List Phase)
    → count f (among before after here) ≡ count f before + count f after + count f here
count-among f before after here =
    omega (arith, count-append f before (here ++ after), count-append f here after)

pub count-length : (threads : List Phase) → length threads ≡ count any threads
count-length [] = refl
count-length (x ∷ threads) = omega (arith, count-length threads)

pub idle_le : (threads : List Phase) → count idle threads ≤ count any threads
idle_le [] = omega arith
idle_le (waiting ∷ threads) = omega (arith, idle_le threads)
idle_le (woken ∷ threads) = omega (arith, idle_le threads)
idle_le (created ∷ threads) = omega (arith, idle_le threads)
idle_le (finishing ∷ threads) = omega (arith, idle_le threads)
idle_le (running work ∷ threads) = omega (arith, idle_le threads)

-- Who is not active is idle.
pub active_or_idle :
    (threads : List Phase) → count any threads ≤ count active threads + count idle threads
active_or_idle [] = omega arith
active_or_idle (waiting ∷ threads) = omega (arith, active_or_idle threads)
active_or_idle (woken ∷ threads) = omega (arith, active_or_idle threads)
active_or_idle (created ∷ threads) = omega (arith, active_or_idle threads)
active_or_idle (finishing ∷ threads) = omega (arith, active_or_idle threads)
active_or_idle (running work ∷ threads) = omega (arith, active_or_idle threads)

pub awake-active :
    (threads : List Phase) → all_awake threads ≡ true → count active threads ≡ count any threads
awake-active [] e = refl
awake-active (waiting ∷ threads) e = absurd (ground arith)
awake-active (woken ∷ threads) e = omega (arith, awake-active threads e)
awake-active (created ∷ threads) e = omega (arith, awake-active threads e)
awake-active (finishing ∷ threads) e = omega (arith, awake-active threads e)
awake-active (running work ∷ threads) e = omega (arith, awake-active threads e)

pub active_le : (threads : List Phase) → count active threads ≤ count any threads
active_le [] = omega arith
active_le (waiting ∷ threads) = omega (arith, active_le threads)
active_le (woken ∷ threads) = omega (arith, active_le threads)
active_le (created ∷ threads) = omega (arith, active_le threads)
active_le (finishing ∷ threads) = omega (arith, active_le threads)
active_le (running work ∷ threads) = omega (arith, active_le threads)

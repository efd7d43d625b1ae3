-- ===== src/GuestTime.antt =====
-- cmd/vfkit/timesync.go: after a sleep of the host, the guest is told the time over one connection.
use vfkit.Base.{
  ℕ, Bool, true, false, List, [], ◌∷◌, ◌++◌, ◌≡◌, refl, Option, none, some, Result, ok, err, errorf,
  Error, ◌>>=◌, fail_if, not,
}
use vfkit.Base.Int.{ℤ}
use vfkit.Text.{Text, codes, text_eq}
use vfkit.Decimal.{format_int}

-- The command for the guest agent, with the nanoseconds since 1970.
unfoldable pub command : ℤ → Text
unfolding codes format_int
command now =
    codes "{\"execute\": \"guest-set-time\", \"arguments\":{\"time\": "
    ++ (format_int now ++ (codes "}}" ++ b'\n' ∷ []))

unfoldable pub good_response : Text
unfolding codes
good_response = codes "{\"return\": {}}" ++ b'\n' ∷ []

-- What a host that is awake meets: the clock, and the write and the read of the connection.
pub record Guest : Type 0 where
  pub now : ℤ
  pub write : Text → Result (Unit {0})
  pub read_line : Result Text

-- The lines that were sent, and the result.
abbrev pub Sync : Type 0
Sync = List Text × Result (Unit {0})

abbrev pub check_response : Result Text → Result (Unit {0})
check_response r = do
  response ← r
  fail_if (not (text_eq response good_response))
      (errorf "unexpected response from qemu-guest-agent: %s" (response ∷ []))

abbrev pub written : Text → Result Text → Result (Unit {0}) → Sync
written line response (err e) = ([], err e)
written line response (ok _) = (line ∷ [], check_response response)

unfoldable pub sync_guest_time : Guest → Sync
unfolding command good_response text_eq
sync_guest_time g = let line = command g.now in written line g.read_line (g.write line)

-- What the notifier reports: another activity, or that the host is awake, with what a connection
-- and the guest would give at that time.
pub data Activity : Type 0 where
  other : Activity
  awake : Result ℕ → Guest → Activity

-- The lines that were sent, each with the connection, the connection that is held, and whether the
-- loop has ended.
pub record Watch : Type 0 where
  pub messages : List (ℕ × Text)
  pub connection : Option ℕ
  pub ended : Bool

abbrev pub on_connection : ℕ → List Text → List (ℕ × Text)
on_connection conn [] = []
on_connection conn (line ∷ lines) = (conn, line) ∷ on_connection conn lines

-- A failed synchronisation is only logged.
abbrev pub synced : ℕ → Sync → Watch → Watch
synced conn s w = record w { messages = on_connection conn s.0 ++ w.messages }

-- The loop of `watchWakeupNotifications`; a failed connection ends it.
unfoldable pub watch : Option ℕ → List Activity → Watch
unfolding sync_guest_time
watch conn [] = record { messages = []; connection = conn; ended = false }
watch conn (other ∷ rest) = watch conn rest
watch (some conn) (awake _ g ∷ rest) = synced conn (sync_guest_time g) (watch (some conn) rest)
watch none (awake (err e) _ ∷ rest) = record { messages = []; connection = none; ended = true }
watch none (awake (ok conn) g ∷ rest) = synced conn (sync_guest_time g) (watch (some conn) rest)

-- The first report that the host is awake.
unfoldable pub first_awake : List Activity → Option (Result ℕ)
first_awake [] = none
first_awake (other ∷ rest) = first_awake rest
first_awake (awake c _ ∷ rest) = some c

-- The messages of the awakenings over one connection: one for each whose write succeeds, with the
-- time of that awakening.
pub data Sends (conn : ℕ) : List Activity → List (ℕ × Text) → Type 0 where
  no_more : Sends conn [] []
  not_awake :
      {l : List Activity} {ms : List (ℕ × Text)} → Sends conn l ms → Sends conn (other ∷ l) ms
  sent :
      {l : List Activity} {ms : List (ℕ × Text)} (c : Result ℕ) (g : Guest)
      → g.write (command g.now) ≡ ok tt
      → Sends conn l ms
      → Sends conn (awake c g ∷ l) ((conn, command g.now) ∷ ms)
  not_sent :
      {l : List Activity} {ms : List (ℕ × Text)} (c : Result ℕ) (g : Guest) (e : Error)
      → g.write (command g.now) ≡ err e
      → Sends conn l ms
      → Sends conn (awake c g ∷ l) ms

-- The state of the loop after a first report with its result.
abbrev pub Expected : List Activity → Option (Result ℕ) → Watch → Type 0
Expected l none w = w ≡ record { messages = []; connection = none; ended = false }
Expected l (some (err e)) w = w ≡ record { messages = []; connection = none; ended = true }
Expected l (some (ok conn)) w =
    Sends conn l w.messages × (w.connection ≡ some conn) × (w.ended ≡ false)

-- The loop goes on over the connection.
abbrev IsConnected : ℕ → List Activity → Watch → Type 0
IsConnected conn l w = Sends conn l w.messages × (w.connection ≡ some conn) × (w.ended ≡ false)

synced-IsConnected :
    (conn : ℕ) (l : List Activity) (w : Watch) (c : Result ℕ) (g : Guest) (r : Result (Unit {0}))
    → g.write (command g.now) ≡ r
    → IsConnected conn l w
    → IsConnected conn (awake c g ∷ l) (synced conn (written (command g.now) g.read_line r) w)
synced-IsConnected conn l w c g (err e) h (s, k, m) = (not_sent c g e h s, k, m)
synced-IsConnected conn l w c g (ok _) h (s, k, m) = (sent c g h s, k, m)

watch-IsConnected : (conn : ℕ) (l : List Activity) → IsConnected conn l (watch (some conn) l)
unfolding watch sync_guest_time
watch-IsConnected conn [] = (no_more, refl, refl)
watch-IsConnected conn (other ∷ rest) =
    let (s, k, m) = watch-IsConnected conn rest in (not_awake s, k, m)
watch-IsConnected conn (awake c g ∷ rest) =
    synced-IsConnected conn rest (watch (some conn) rest) c g (g.write (command g.now)) refl
      (watch-IsConnected conn rest)

-- The first awakening decides. Before it, nothing is sent; if its connection fails, the loop ends
-- and nothing is ever sent; otherwise the loop goes on over that one connection, and every
-- awakening whose write succeeds sends one message with its time, whether the earlier ones were
-- sent and answered or not.
pub watch-Expected : (l : List Activity) → Expected l (first_awake l) (watch none l)
unfolding watch first_awake sync_guest_time
watch-Expected [] = refl
watch-Expected (other ∷ rest) = behind_other rest (first_awake rest) (watch-Expected rest)
  where
    behind_other :
        (rest : List Activity) (first : Option (Result ℕ))
        → Expected rest first (watch none rest)
        → Expected (other ∷ rest) first (watch none rest)
    behind_other rest none h = h
    behind_other rest (some (err e)) h = h
    behind_other rest (some (ok conn)) (s, k, m) = (not_awake s, k, m)
watch-Expected (awake (err e) g ∷ rest) = refl
watch-Expected (awake (ok conn) g ∷ rest) =
    synced-IsConnected conn rest (watch (some conn) rest) (ok conn) g (g.write (command g.now)) refl
      (watch-IsConnected conn rest)

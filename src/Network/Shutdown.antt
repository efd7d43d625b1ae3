-- ===== src/Network/Shutdown.antt =====
-- What the exit handlers leave behind of the network devices.
use vfkit.Base.{
  ℕ, Bool, true, false, not, ◌&&◌, ◌||◌, Option, none, some, List, [], ◌∷◌, ◌++◌, ◌≡◌, ◌⊎◌, ◌↔◌,
  inl, inr, refl, subst, ◌∙◌, arith, Result, ok, err, Bool-cases,
}
use vfkit.Text.{Text, text_eq_iff, is_empty}
use vfkit.Network.{
  Resource, socket_file, descriptor, Resources, same, has, drop, NetDevice, Dialed, not_bound,
  refused, connected, Calls, checked_path, duplicate, attached, close_conn, use_conn, use_dialed,
  connect_from, connect_unix_path, remove_local, close_socket, shutdown, execute_exit_handlers,
  NetState, connected_or_not, register, add_net, add_nets, next_net,
}

pub same_iff : (r s : Resource) → (same r s ≡ true) ↔ (r ≡ s)
unfolding same
same_iff (socket_file s) (socket_file t) = ground (arith, text_eq_iff s t)
same_iff (descriptor a) (descriptor b) = ground arith
same_iff (socket_file s) (descriptor b) = ground arith
same_iff (descriptor a) (socket_file t) = ground arith

pub same_comm : (r s : Resource) → same r s ≡ same s r
same_comm r s = ground (arith, same_iff r s, same_iff s r)

pub has-drop : (x r : Resource) (l : Resources) → has x (drop r l) ≡ (has x l && not (same r x))
unfolding has drop
has-drop x r [] = refl
has-drop x r (y ∷ l) = ground (arith, has-drop x r l, same_iff r y, same_iff x y, same_iff r x)

abbrev is_file : Resource → Option Text → Bool
is_file x none = false
is_file x (some s) = same (socket_file s) x

abbrev is_descriptor : Resource → Option ℕ → Bool
is_descriptor x none = false
is_descriptor x (some fd) = same (descriptor fd) x

-- The device's shutdown removes the resource.
unfoldable holds : Resource → NetDevice → Bool
unfolding same
holds x d = is_file x d.local_addr || is_descriptor x d.config.socket

unfoldable owned : Resource → List NetDevice → Bool
unfolding holds
owned x [] = false
owned x (d ∷ ds) = holds x d || owned x ds

has-remove_local :
    (x : Resource) (l : Option Text) (host : Resources)
    → has x (remove_local l host) ≡ (has x host && not (is_file x l))
has-remove_local x none host = ground arith
has-remove_local x (some s) host = has-drop x (socket_file s) host

has-close_socket :
    (x : Resource) (fd : Option ℕ) (host : Resources)
    → has x (close_socket fd host) ≡ (has x host && not (is_descriptor x fd))
has-close_socket x none host = ground arith
has-close_socket x (some fd) host = has-drop x (descriptor fd) host

has-shutdown :
    (x : Resource) (d : NetDevice) (host : Resources)
    → has x (shutdown d host) ≡ (has x host && not (holds x d))
unfolding shutdown holds
has-shutdown x d host =
    has-close_socket x d.config.socket (remove_local d.local_addr host)
    ∙ rw (has-remove_local x d.local_addr host) (ground arith)

-- The handlers remove what they own and nothing else.
has-execute_exit_handlers :
    (x : Resource) (ds : List NetDevice) (host : Resources)
    → has x (execute_exit_handlers ds host) ≡ (has x host && not (owned x ds))
unfolding execute_exit_handlers owned
has-execute_exit_handlers x [] host = ground arith
has-execute_exit_handlers x (d ∷ ds) host =
    has-execute_exit_handlers x ds (shutdown d host) ∙ rw (has-shutdown x d host) (ground arith)

owned-append :
    (x : Resource) (ds : List NetDevice) (d : NetDevice)
    → owned x (ds ++ d ∷ []) ≡ (owned x ds || holds x d)
unfolding owned
owned-append x [] d = ground arith
owned-append x (e ∷ ds) d = ground (arith, owned-append x ds d)

-- What a connection leaves on the host, if it is made.
abbrev Held : Resources → Resources × Result NetDevice → Type 0
Held host (host', r) =
    (d : NetDevice) (x : Resource)
    → r ≡ ok d
    → has x host' ≡ true
    → (has x host ≡ true) ⊎ (holds x d ≡ true)

module _ (calls : Calls) where
  attached-holds :
      (dev : NetDevice) (local : Text) (fd dup : ℕ) (host : Resources) (x : Resource)
      → has x (drop (descriptor fd) (descriptor dup ∷ descriptor fd ∷ socket_file local ∷ host))
        ≡ true
      → (has x host ≡ true) ⊎ (holds x (attached calls dev local dup) ≡ true)
  unfolding holds has
  attached-holds dev local fd dup host x h = ground (
    arith,
    has-drop x (descriptor fd) (descriptor dup ∷ descriptor fd ∷ socket_file local ∷ host),
    same_comm x (descriptor dup),
    same_comm x (descriptor fd),
    same_comm x (socket_file local),
  )

  closed-Held :
      (dev : NetDevice) (local : Text) (fd dup : ℕ) (host : Resources) (c : Result (Unit {0}))
      → Held host (
          close_conn calls dev local dup
            (drop (descriptor fd) (descriptor dup ∷ descriptor fd ∷ socket_file local ∷ host))
            c)
  closed-Held dev local fd dup host (err e) d x made h = cc
  closed-Held dev local fd dup host (ok _) d x made h =
      subst (λ y. (has x host ≡ true) ⊎ (holds x y ≡ true)) (cc)
        (attached-holds dev local fd dup host x h)

  used-Held :
      (dev : NetDevice) (local : Text) (fd : ℕ) (host : Resources) (dup : Result ℕ)
      → Held host (use_conn calls dev local fd (descriptor fd ∷ socket_file local ∷ host) dup)
  used-Held dev local fd host (err e) d x made h = cc
  used-Held dev local fd host (ok dup) d x made h =
      closed-Held dev local fd dup host calls.close d x made h

  dialed-Held :
      (dev : NetDevice) (local : Text) (host : Resources) (dialed : Dialed)
      → Held host (use_dialed calls dev local host dialed)
  dialed-Held dev local host (not_bound e) d x made h = cc
  dialed-Held dev local host (refused e) d x made h = cc
  dialed-Held dev local host (connected fd) d x made h =
      used-Held dev local fd host (duplicate calls dev.config.vfkit_magic) d x made h

  connected-Held :
      (dev : NetDevice) (host : Resources) (path : Result Text)
      → Held host (connect_from calls dev host path)
  connected-Held dev host (err e) d x made h = cc
  connected-Held dev host (ok local) d x made h =
      dialed-Held dev local host (calls.dial local dev.config.unix_socket_path) d x made h

module _ (calls : Calls) (to_vz : NetDevice → Result (Unit {0})) where
  added-Held :
      (dev : NetDevice) (host : Resources) → Held host (connected_or_not calls to_vz dev host)
  added-Held dev host d x made h = elim (Bool-cases (is_empty dev.config.unix_socket_path)) [
    | inl e ↦ inl (rw e at h)
    | inr e ↦
        unfold connect_unix_path in
        connected-Held calls dev host (checked_path calls dev.config.unix_socket_path) d x
          (rw e at made) (rw e at h)
  ]

  -- Whatever is on the host was there before or is owned by a handler.
  abbrev IsOwned : Resources → NetState → Type 0
  IsOwned before st =
      (x : Resource) → has x st.host ≡ true → (has x before ≡ true) ⊎ (owned x st.handlers ≡ true)

  register-IsOwned :
      (before host : Resources) (handlers : List NetDevice) (r : Resources × Result NetDevice)
      → IsOwned before (record { host = host; handlers = handlers })
      → Held host r
      → (register calls to_vz handlers r).1 ≡ ok tt
      → IsOwned before (register calls to_vz handlers r).0
  register-IsOwned before host handlers (host', err e) h k made x there = cc
  register-IsOwned before host handlers (host', ok d) h k made x there =
      ground (arith, h x, k d x refl there, owned-append x handlers d)

  next-IsOwned :
      (before : Resources) (r : NetState × Result (Unit {0}))
      (rest : NetState → NetState × Result (Unit {0}))
      → (r.1 ≡ ok tt → IsOwned before r.0)
      → ((s : NetState) → IsOwned before s → (rest s).1 ≡ ok tt → IsOwned before (rest s).0)
      → (next_net calls to_vz r rest).1 ≡ ok tt
      → IsOwned before (next_net calls to_vz r rest).0
  next-IsOwned before (st, err e) rest h k made x there = cc
  next-IsOwned before (st, ok _) rest h k made x there = k st (h refl) made x there

  add_nets-IsOwned :
      (before : Resources) (devs : List NetDevice) (st : NetState)
      → IsOwned before st
      → (add_nets calls to_vz devs st).1 ≡ ok tt
      → IsOwned before (add_nets calls to_vz devs st).0
  unfolding add_nets add_net
  add_nets-IsOwned before [] st h made = h
  add_nets-IsOwned before (dev ∷ devs) st h made =
      next-IsOwned before (add_net calls to_vz dev st) (add_nets calls to_vz devs)
        (register-IsOwned before st.host st.handlers (connected_or_not calls to_vz dev st.host) h
          (added-Held dev st.host))
        (add_nets-IsOwned before devs) made

  -- After all network devices have been added, the exit handlers remove every local socket and
  -- close every descriptor that this has made: what is left on the host was there before.
  pub add_nets-shutdown :
      (devs : List NetDevice) (host : Resources)
      → let r = add_nets calls to_vz devs (record { host = host; handlers = [] }) in
        r.1 ≡ ok tt
        → (x : Resource) → has x (execute_exit_handlers r.0.handlers r.0.host) ≡ true
        → has x host ≡ true
  add_nets-shutdown devs host made x left =
      let r = add_nets calls to_vz devs (record { host = host; handlers = [] }) in
      let kept =
        add_nets-IsOwned host devs (record { host = host; handlers = [] }) (λ y there. inl there)
          made x in
      ground (arith, has-execute_exit_handlers x r.0.handlers r.0.host)

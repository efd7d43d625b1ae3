-- ===== src/Network/Failed.antt =====
-- What a connection that fails leaves on the host.
use vfkit.Base.{
  ◌≢◌, checked-eq-ok, Bool-cases, ℕ, Bool, true, false, ◌∷◌, ◌≡◌, ◌⊎◌, inl, inr, refl, subst, ap,
  sym, ◌∙◌, arith, Result, ok, err, Error, if◌then◌else◌, >>=-eq-ok,
}
use vfkit.Text.{Text, is_empty}
use vfkit.Network.{
  Resource, socket_file, descriptor, Resources, same, has, drop, NetDevice, Dialed, not_bound,
  refused, connected, Calls, checked_path, local_unix_socket_path, duplicate, close_conn, use_conn,
  use_dialed, connect_from, connect_unix_path, NetState, connected_or_not, register, add_net,
}
use vfkit.Network.Shutdown.{same_iff, same_comm, has-drop}

module _ (calls : Calls) (dev : NetDevice) where
  -- The remote path
  abbrev pub path : Text
  path = dev.config.unix_socket_path

  -- The name of the socket that is bound for a remote path
  abbrev pub local_socket : Resource
  local_socket = socket_file (calls.local_path path)

  -- What a failure may leave: the local socket, and the duplicate of the descriptor.
  abbrev pub IsLeft : Resource → Type 0
  IsLeft x = (x ≡ local_socket) ⊎ ((fd : ℕ) × (calls.file ≡ ok fd) × (x ≡ descriptor fd))

  abbrev pub Leaves : Resources → Resources → Type 0
  Leaves host host' =
      (has local_socket host' ≡ true)
      × ((x : Resource) → has x host' ≡ true → (has x host ≡ true) ⊎ IsLeft x)

  -- The connection fails before the local socket is bound.
  abbrev pub IsUnbound : Type 0
  IsUnbound =
      ((e : Error) × (checked_path calls path ≡ err e))
      ⊎ ((e : Error) × (calls.dial (calls.local_path path) path ≡ not_bound e))

  abbrev pub Failed : Resources → Resources → Type 0
  Failed host host' = (IsUnbound × (host' ≡ host)) ⊎ (¬ IsUnbound × Leaves host host')

  abbrev IfFailed : Resources → Resources × Result NetDevice → Type 0
  IfFailed host (host', ok d) = Unit
  IfFailed host (host', err e) = Failed host host'

  self : (x : Resource) → same x x ≡ true
  self x = (same_iff x x).1 refl

  bound-Leaves : (host : Resources) → Leaves host (local_socket ∷ host)
  unfolding has
  bound-Leaves host =
      (rw (self local_socket) refl, λ x there. ground (arith, same_iff x local_socket))

  used-Leaves :
      (fd : ℕ) (host : Resources)
      → Leaves host (drop (descriptor fd) (descriptor fd ∷ local_socket ∷ host))
  unfolding has same
  used-Leaves fd host = (
    has-drop local_socket (descriptor fd) (descriptor fd ∷ local_socket ∷ host)
        ∙ ground (arith, self local_socket),
    λ x there. ground (
      arith,
      has-drop x (descriptor fd) (descriptor fd ∷ local_socket ∷ host),
      same_iff x local_socket,
      same_comm x (descriptor fd),
    ),
  )

  closed-Leaves :
      (fd dup : ℕ) (host : Resources)
      → calls.file ≡ ok dup
      → Leaves host (drop (descriptor fd) (descriptor dup ∷ descriptor fd ∷ local_socket ∷ host))
  unfolding has same
  closed-Leaves fd dup host file =
      let before = descriptor dup ∷ descriptor fd ∷ local_socket ∷ host in
      (
        has-drop local_socket (descriptor fd) before ∙ ground (arith, self local_socket),
        λ x there. elim (Bool-cases (same x (descriptor dup))) [
          | inl e ↦ inr (inr (dup, file, (same_iff x (descriptor dup)).0 e))
          | inr e ↦ ground (
            arith,
            has-drop x (descriptor fd) before,
            same_iff x local_socket,
            same_comm x (descriptor fd),
          )
        ],
      )

  duplicate-file : (magic : Bool) (fd : ℕ) → duplicate calls magic ≡ ok fd → calls.file ≡ ok fd
  unfolding duplicate
  duplicate-file magic fd e =
      let (_, _, e1) = >>=-eq-ok calls.syscall_conn _ e in
      let (_, _, e2) = >>=-eq-ok calls.control _ e1 in
      let (_, _, e3) = >>=-eq-ok (if magic then _ else ok tt) _ e2 in e3

  checked-local :
      (local : Text) → checked_path calls path ≡ ok local → calls.local_path path ≡ local
  unfolding checked_path local_unix_socket_path
  checked-local local e =
      let (made, _) = checked-eq-ok (local_unix_socket_path calls path) _ e in
      let (_, _, m) = >>=-eq-ok (calls.open_file (calls.local_path path)) _ made in cc

  closed-IfFailed :
      (fd dup : ℕ) (host : Resources) (c : Result (Unit {0}))
      → ¬ IsUnbound
      → calls.file ≡ ok dup
      → IfFailed host (
          close_conn calls dev
            (calls.local_path path)
            dup
            (drop (descriptor fd) (descriptor dup ∷ descriptor fd ∷ local_socket ∷ host))
            c)
  closed-IfFailed fd dup host (err e) bound file = inr (bound, closed-Leaves fd dup host file)
  closed-IfFailed fd dup host (ok _) bound file = tt

  used-IfFailed :
      (fd : ℕ) (host : Resources) (dup : Result ℕ)
      → ¬ IsUnbound
      → ((n : ℕ) → dup ≡ ok n → calls.file ≡ ok n)
      → IfFailed host
          (use_conn calls dev (calls.local_path path) fd (descriptor fd ∷ local_socket ∷ host) dup)
  used-IfFailed fd host (err e) bound file = inr (bound, used-Leaves fd host)
  used-IfFailed fd host (ok dup) bound file =
      closed-IfFailed fd dup host calls.close bound (file dup refl)

  bound :
      (local : Text) (dialed : Dialed)
      → checked_path calls path ≡ ok local
      → calls.dial (calls.local_path path) path ≡ dialed
      → ((e : Error) → dialed ≢ not_bound e)
      → ¬ IsUnbound
  bound local dialed good is_dialed ne (inl (e, bad)) = cc
  bound local dialed good is_dialed ne (inr (e, unbound)) = ne e (sym is_dialed ∙ unbound)

  dialed-IfFailed :
      (host : Resources) (local : Text) (dialed : Dialed)
      → checked_path calls path ≡ ok local
      → calls.dial (calls.local_path path) path ≡ dialed
      → IfFailed host (use_dialed calls dev (calls.local_path path) host dialed)
  dialed-IfFailed host local (not_bound e) good h = inl (inr (e, h), refl)
  dialed-IfFailed host local (refused e) good h =
      inr (bound local (refused e) good h (λ e k. cc), bound-Leaves host)
  dialed-IfFailed host local (connected fd) good h =
      used-IfFailed fd host (duplicate calls dev.config.vfkit_magic)
        (bound local (connected fd) good h (λ e k. cc)) (duplicate-file dev.config.vfkit_magic)

  connected-IfFailed :
      (host : Resources) (local : Result Text)
      → checked_path calls path ≡ local
      → IfFailed host (connect_from calls dev host local)
  connected-IfFailed host (err e) h = inl (inl (e, h), refl)
  connected-IfFailed host (ok l) h =
      subst (λ m. IfFailed host (use_dialed calls dev m host (calls.dial m path)))
        (checked-local l h)
        (dialed-IfFailed host l (calls.dial (calls.local_path path) path) h refl)

-- A device whose connection fails is not added, and no exit handler is registered for it. If the
-- connection fails before its local socket is bound, the host is as before; and else the local
-- socket is left on it, and beside that only the duplicate of the descriptor can be new.
pub add_net-Failed :
    (calls : Calls) (to_vz : NetDevice → Result (Unit {0})) (dev : NetDevice) (st : NetState)
    (host : Resources) (e : Error)
    → is_empty dev.config.unix_socket_path ≡ false
    → connect_unix_path calls dev st.host ≡ (host, err e)
    → let r = add_net calls to_vz dev st in
      (r.1 ≡ err e) × (r.0.handlers ≡ st.handlers) × Failed calls dev st.host r.0.host
unfolding add_net connect_unix_path
add_net-Failed calls to_vz dev st host e is_set failed =
    let made : connected_or_not calls to_vz dev st.host ≡ (host, err e) =
      ap (λ b. if b then (st.host, ok dev) else connect_unix_path calls dev st.host) is_set
      ∙ failed in
    let left =
      connected-IfFailed calls dev st.host (checked_path calls dev.config.unix_socket_path) refl in
    subst
      (λ q.
        let r = register calls to_vz st.handlers q in
        (r.1 ≡ err e) × (r.0.handlers ≡ st.handlers) × Failed calls dev st.host r.0.host)
      (sym made) (refl, refl, subst (λ q. IfFailed calls dev st.host q) failed left)

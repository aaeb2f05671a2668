-- ===== src/Daemon/Vms/Lifecycle.antt =====
-- daemon/vms/lifecycleops.go: the operations on a virtual machine, over the libvirt client.
pub mod Connections
use mechanicaldinosaurs.Base.{
  ℕ, ◌==◌, ◌+◌, ◌-◌, ◌*◌, ◌%◌, ◌^◌, Bytes, codes, ltb, if◌then◌else◌, ◌⊎◌, inl, inr, Bool, true,
  false, not, Option, none, some,
}

pub data DomainState : Type 0 where
  domain_running domain_paused domain_shutoff domain_other : DomainState

-- What the libvirt client and `os.Remove` do to the state S of the host; each call gives the new
-- state and whether it succeeded.
pub record Libvirt (S : Type 0) : Type 0 where
  pub new_connect : S → S × Bool
  pub lookup_domain : Bytes → S → S × Bool
  pub create : Bytes → S → S × Bool
  pub shutdown : Bytes → S → S × Bool
  pub destroy : Bytes → S → S × Bool
  pub reboot : Bytes → S → S × Bool
  pub set_memory : Bytes → ℕ → S → S × Bool
  pub set_vcpus : Bytes → ℕ → S → S × Bool
  pub undefine_nvram : Bytes → S → S × Bool
  pub undefine : Bytes → S → S × Bool
  pub get_state : Bytes → S → S × Option DomainState
  pub remove : Bytes → S → S × Bool

-- `opened` counts the connections that are open, `domains` the domains that libvirt has given out:
-- none is ever freed.
pub record World (S : Type 0) : Type 0 where
  pub host : S
  pub opened : ℕ
  pub domains : ℕ

pub data VmError : Type 0 where
  connect_failed domain_not_found libvirt_failed : VmError
  set_memory_failed set_vcpus_failed storage_not_supported remove_failed : VmError
  stats_failed list_failed description_failed config_failed dial_failed : VmError

-- A step of an operation, with its result.
abbrev pub M : Type 0 → Type 0 → Type 0
M S A = World S → World S × (VmError ⊎ A)

module _ {S : Type 0} where
  unfoldable pub and_then : {A B : Type 0} → M S A → (A → M S B) → M S B
  and_then m f w = let r = m w in elim r.1 [ inl e ↦ (r.0, inl e) | inr a ↦ f a r.0 ]

  unfoldable pub throw : {A : Type 0} → VmError → M S A
  throw e w = (w, inl e)

  unfoldable pub give : {A : Type 0} → A → M S A
  give a w = (w, inr a)

  pub fail : VmError → M S (Unit {0})
  fail e w = (w, inl e)

  pub done : M S (Unit {0})
  done w = (w, inr tt)

  -- A call that succeeds, or gives the error.
  unfoldable pub attempt : (S → S × Bool) → VmError → M S (Unit {0})
  attempt call e w = let r = call w.host in (record w { host = r.0 }, if r.1 then inr tt else inl e)

  -- A call whose result is not looked at.
  pub ignored : (S → S × Bool) → M S (Unit {0})
  ignored call w = (record w { host = (call w.host).0 }, inr tt)

  -- `conn.Close()`: libvirt counts references, and closes the connection unless a domain that came
  -- from it has not been freed; the argument is the number of these.
  unfoldable pub close : ℕ → World S → World S
  close held w = if held == 0 then record w { opened = w.opened - 1 } else w

module _ {S : Type 0} (libvirt : Libvirt S) where
  open libvirt use {
    new_connect, lookup_domain, create, shutdown, destroy, reboot, set_memory, set_vcpus,
    undefine_nvram, undefine, get_state, remove,
  }

  -- `getDomain`: a connection that finds no domain is closed again.
  unfoldable pub get_domain : Bytes → M S (Unit {0})
  unfolding close
  get_domain name w =
      let connected = new_connect w.host in
      let found = lookup_domain name connected.0 in
      if not connected.1
      then (record w { host = connected.0 }, inl connect_failed)
      else if found.1
      then (record w { host = found.0; opened = w.opened + 1; domains = w.domains + 1 }, inr tt)
      else (close 0 (record w { host = found.0; opened = w.opened + 1 }), inl domain_not_found)

  -- The frame of every operation: `getDomain`, and the deferred close round the rest.
  unfoldable pub with_domain : {A : Type 0} → Bytes → M S A → M S A
  unfolding get_domain close
  with_domain name body w =
      let r = get_domain name w in
      elim r.1 [ inl e ↦ (r.0, inl e) | inr _ ↦ (close 1 (body r.0).0, (body r.0).1) ]

  unfoldable pub start_vm : Bytes → M S (Unit {0})
  unfolding with_domain
  start_vm name = with_domain name (attempt (create name) libvirt_failed)

  unfoldable pub stop_vm : Bytes → Bool → M S (Unit {0})
  unfolding with_domain
  stop_vm name graceful =
      with_domain name (attempt (if graceful then shutdown name else destroy name) libvirt_failed)

  pub restart_body : Bytes → Bool → M S (Unit {0})
  restart_body name true = attempt (reboot name) libvirt_failed
  restart_body name false =
      and_then (attempt (destroy name) libvirt_failed) (λ _. attempt (create name) libvirt_failed)

  unfoldable pub restart_vm : Bytes → Bool → M S (Unit {0})
  unfolding with_domain restart_body
  restart_vm name graceful = with_domain name (restart_body name graceful)

  -- Memory in KiB is a uint64; zero leaves a setting as it is.
  pub update_body : Bytes → ℕ → ℕ → ℕ → M S (Unit {0})
  update_body name vcpus memory_mib storage =
      and_then
        (if ltb 0 memory_mib
          then attempt (set_memory name ((memory_mib * 1024) % 2 ^ 64)) set_memory_failed
          else done)
        (λ _.
          and_then (if ltb 0 vcpus then attempt (set_vcpus name vcpus) set_vcpus_failed else done)
            (λ _. if ltb 0 storage then fail storage_not_supported else done))

  unfoldable pub update_vm : Bytes → ℕ → ℕ → ℕ → M S (Unit {0})
  unfolding with_domain update_body
  update_vm name vcpus memory_mib storage =
      with_domain name (update_body name vcpus memory_mib storage)

  pub undefine_domain : Bytes → M S (Unit {0})
  unfolding ignored
  undefine_domain name w =
      let r = undefine_nvram name w.host in
      if r.1
      then (record w { host = r.0 }, inr tt)
      else ignored (undefine name) (record w { host = r.0 })

  -- The path of the disk is an argument, `filepath.Join(dataDir, "disks", name + ".qcow2")`.
  pub delete_body : Bytes → Bytes → M S (Unit {0})
  unfolding undefine_domain
  delete_body name disk_path =
      and_then (ignored (destroy name))
        (λ _. and_then (undefine_domain name) (λ _. attempt (remove disk_path) remove_failed))

  unfoldable pub delete_vm : Bytes → Bytes → M S (Unit {0})
  unfolding with_domain delete_body
  delete_vm name disk_path = with_domain name (delete_body name disk_path)

  state_text : DomainState → Bytes
  state_text domain_running = codes "running"
  state_text domain_paused = codes "paused"
  state_text domain_shutoff = codes "stopped"
  state_text domain_other = codes "unknown"

  pub status_body : Bytes → M S Bytes
  unfolding state_text
  status_body name w =
      let r = get_state name w.host in
      (
        record w { host = r.0 },
        elim r.1 [ none ↦ inl libvirt_failed | some st ↦ inr (state_text st) ],
      )

  unfoldable pub get_vm_status : Bytes → M S Bytes
  unfolding with_domain status_body
  get_vm_status name = with_domain name (status_body name)

-- ===== src/Daemon/Vms/Queries/Display.antt =====
-- daemon/vms/vms.go, `ProxyVM`: the display of a machine.
use mechanicaldinosaurs.Base.{ℤ, Bytes, refl, ◌⊎◌, inl, inr, Bool}
use mechanicaldinosaurs.Daemon.Vms.Lifecycle.{
  Libvirt, description_failed, config_failed, dial_failed, M, and_then, attempt, throw, with_domain,
}
use mechanicaldinosaurs.Daemon.Vms.Lifecycle.Connections.{
  IsBalanced, attempt-IsBalanced, and_then-IsBalanced, with_domain-IsBalanced,
}
use mechanicaldinosaurs.Daemon.Vms.Queries.{
  QemuImg, Descriptions, QueryError, ask, vnc_port_from_xml,
}
use mechanicaldinosaurs.Daemon.Vms.Queries.Connections.{ask-IsBalanced}

-- The connection to the display, and the two copies between it and the client, which end.
pub record Display (S : Type 0) : Type 0 where
  pub dial : ℤ → S → S × Bool
  pub copy : S → S

module _ {S : Type 0} (libvirt : Libvirt S) (descriptions : Descriptions S) (qemu_img : QemuImg)
    (display : Display S) where
  -- From the port on.
  forward : QueryError ⊎ ℤ → M S (Unit {0})
  forward (inl e) = throw config_failed
  forward (inr port) =
      and_then (attempt (display.dial port) dial_failed)
        (λ _. λ w. (record w { host = display.copy w.host }, inr tt))

  -- `ProxyVM` behind the connection and the lookup.
  proxy_body : Bytes → M S (Unit {0})
  unfolding forward ask vnc_port_from_xml
  proxy_body name =
      and_then (ask libvirt descriptions qemu_img (descriptions.get_xml name) description_failed)
        (λ d. forward (vnc_port_from_xml d))

  -- `ProxyVM`; its deferred close is that of the other operations.
  unfoldable pub proxy_vm : Bytes → M S (Unit {0})
  unfolding with_domain proxy_body
  proxy_vm name = with_domain libvirt name (proxy_body name)

  forward-IsBalanced : (port : QueryError ⊎ ℤ) → IsBalanced (forward port)
  unfolding forward throw
  forward-IsBalanced (inl e) = λ w. inl (refl, refl)
  forward-IsBalanced (inr port) =
      and_then-IsBalanced _ _ (attempt-IsBalanced (display.dial port) dial_failed)
        (λ _. λ w. inl (refl, refl))

  -- The connection to libvirt stays open if the machine was found.
  pub proxy_vm-IsBalanced : (name : Bytes) → IsBalanced (proxy_vm name)
  unfolding proxy_vm proxy_body
  proxy_vm-IsBalanced name = with_domain-IsBalanced libvirt name (proxy_body name) (
      and_then-IsBalanced
        (ask libvirt descriptions qemu_img (descriptions.get_xml name) description_failed)
        (λ d. forward (vnc_port_from_xml d))
        (ask-IsBalanced libvirt descriptions qemu_img (descriptions.get_xml name)
          description_failed)
        (λ d. forward-IsBalanced (vnc_port_from_xml d)))

-- ===== src/Rpc/Info.antt =====
-- server/server.go, `Info`: what a daemon says about its machine, and its form as a map.
use mechanicaldinosaurs.Base.{ℕ, ℤ, pos, Bytes, codes, Bool}
use mechanicaldinosaurs.Engine.Context.{
  Value, int_value, float64_value, string_value, bool_value, Entries, end, entry, int, uint64,
}

pub record Info (F : Type 0) : Type 0 where
  pub os : Bytes
  pub os_release : Bytes
  pub hostname : Bytes
  pub uptime : ℕ
  pub cpu : Bytes
  pub cpu_arch : Bytes
  pub cpu_num : ℤ
  pub cpu_usage : F
  pub cpu_temp : F
  pub memory_capacity : ℕ
  pub memory_used : ℕ
  pub storage_capacity : ℕ
  pub storage_used : ℕ
  pub has_battery : Bool
  pub battery : Bytes

module _ {F : Type 0} where
  abbrev uint64_value : ℕ → Value F
  uint64_value n = int_value uint64 (pos n)

  -- `Info.Map`.
  unfoldable pub info_map : Info F → Entries F
  info_map i = entry (codes "os") (string_value i.os) (
      entry (codes "os_release") (string_value i.os_release) (
        entry (codes "hostname") (string_value i.hostname) (
          entry (codes "uptime") (uint64_value i.uptime) (
            entry (codes "cpu") (string_value i.cpu) (
              entry (codes "arch") (string_value i.cpu_arch) (
                entry (codes "cpu_num") (int_value int i.cpu_num) (
                  entry (codes "cpu_usage") (float64_value i.cpu_usage) (
                    entry (codes "cpu_temp") (float64_value i.cpu_temp) (
                      entry (codes "memory") (uint64_value i.memory_capacity) (
                        entry (codes "memory_used") (uint64_value i.memory_used) (
                          entry (codes "storage_capacity") (uint64_value i.storage_capacity) (
                            entry (codes "storage_used") (uint64_value i.storage_used) (
                              entry (codes "has_battery") (bool_value i.has_battery)
                                (entry (codes "battery") (string_value i.battery) end))))))))))))))

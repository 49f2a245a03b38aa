-- ===== src/Placer/Words.antt =====
-- The message that the call makes is read back as the properties it was built from.
use ajit_segment_bots.Settings.{decimal}
use ajit_segment_bots.Prelude.{
  ◌&&◌, ◌*◌, ◌++◌, List, Option, String, [], if◌then◌else◌, length, none, refl, some, str_eq, suc,
  zero, ℕ, ◌∷◌, ◌≡◌,
}
use ajit_segment_bots.Placer.{ScopeLimits, properties_for, flattened}

-- One property as `busctl` reads it: a name, a signature, and the words that the signature asks for.
unfoldable pub read_properties : ℕ → List String → Option (List (String × String) × List String)
read_properties zero ws = some ([], ws)
read_properties (suc n) (name ∷ signature ∷ a ∷ b ∷ ws) =
    let scalar = read_properties n (b ∷ ws) in
    let one = read_properties n ws in
    if str_eq signature "t"
    then elim scalar [ none ↦ none | some (ps, rest) ↦ some ((name, a) ∷ ps, rest) ]
    else if str_eq signature "au" && str_eq a "1"
    then elim one [ none ↦ none | some (ps, rest) ↦ some ((name, b) ∷ ps, rest) ]
    else none
read_properties (suc n) _ = none

-- What the limits say, by the names that systemd has for them.
abbrev pub asked : ℕ → ScopeLimits → List (String × String)
asked pid limits =
    ("PIDs", decimal pid)
    ∷ ("MemoryMax", decimal limits.memory_max_bytes)
    ∷ ("CPUWeight", decimal limits.cpu_weight)
    ∷ (elim limits.pids_max [ none ↦ [] | some n ↦ ("TasksMax", decimal n) ∷ [] ]
        ++ elim limits.cpu_quota_percent [
          | none ↦ []
          | some n ↦ ("CPUQuotaPerSecUSec", decimal (n * 10000)) ∷ []
        ])

flattened_by :
    (pid memory weight : ℕ) (pids quota : Option ℕ)
    → read_properties
        (length (
          properties_for pid (record {
            memory_max_bytes = memory;
            cpu_weight = weight;
            pids_max = pids;
            cpu_quota_percent = quota;
          })))
        (flattened (
            properties_for pid (record {
              memory_max_bytes = memory;
              cpu_weight = weight;
              pids_max = pids;
              cpu_quota_percent = quota;
            }))
          ++ "0" ∷ [])
      ≡ some (
        asked pid (record {
          memory_max_bytes = memory;
          cpu_weight = weight;
          pids_max = pids;
          cpu_quota_percent = quota;
        }),
        "0" ∷ [],
      )
unfolding read_properties properties_for
flattened_by pid memory weight none none = refl
flattened_by pid memory weight none (some q) = refl
flattened_by pid memory weight (some n) none = refl
flattened_by pid memory weight (some n) (some q) = refl

-- The words between the count and the closing 0 are, read as that many properties, the process and
-- each limit that is set, the quota in microseconds, and nothing is left but the 0.
pub read_properties-flattened :
    (pid : ℕ) (limits : ScopeLimits)
    → read_properties
        (length (properties_for pid limits))
        (flattened (properties_for pid limits) ++ "0" ∷ [])
      ≡ some (asked pid limits, "0" ∷ [])
read_properties-flattened pid limits =
    flattened_by pid limits.memory_max_bytes limits.cpu_weight limits.pids_max
      limits.cpu_quota_percent

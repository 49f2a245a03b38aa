-- ===== src/Hardware/Memory.antt =====
-- When a measurement is given, and what it then says of the memory.
use ajit_segment_bots.Prelude.{
  ◌*◌, Option, Text, arith, codes, ok, some, ℕ, ◌≡◌, ◌≢◌, Option-cases, inl, inr, length, suc, sym,
  zero, ◌∙◌,
}
use ajit_segment_bots.Hardware.{
  HardwareFacts, FieldsOf, look_up, read_meminfo_kibibytes, require_meminfo_field,
  read_available_ram_bytes, measure_hardware_facts, parse_physical_core_count, nonzero,
  physical_cores_of,
}

nonzero_lem : (n : ℕ) → nonzero n ≢ some 0
nonzero_lem zero e = cc e
nonzero_lem (suc n) e = cc e

module _ (int_of : Text → Option ℕ) where
  -- A measurement that is given says of the available memory what a live reading of the same text
  -- says, takes the total and the swap from fields that the text has, in bytes, and the cores from the
  -- topology alone; a number of cores is never 0.
  pub measure_hardware_facts_lem :
      (cpuinfo_text meminfo_text : Text) (cpu_count : Option ℕ) (numa_node_count now : ℕ)
      (facts : HardwareFacts)
      → measure_hardware_facts int_of cpuinfo_text meminfo_text cpu_count numa_node_count now
        ≡ ok facts
      → (read_available_ram_bytes int_of meminfo_text ≡ ok facts.available_ram_bytes)
        × ((fields : FieldsOf ℕ)
            → read_meminfo_kibibytes int_of meminfo_text ≡ ok fields
            → (total : ℕ) × (swap : ℕ) × (look_up fields (codes "MemTotal") ≡ some total)
              × (look_up fields (codes "SwapTotal") ≡ some swap)
              × (facts.total_ram_bytes ≡ total * 1024)
              × (facts.swap_total_bytes ≡ swap * 1024))
        × (facts.physical_cores ≡ parse_physical_core_count cpuinfo_text)
        × (facts.physical_cores ≢ some 0)
  unfolding measure_hardware_facts read_available_ram_bytes require_meminfo_field
  measure_hardware_facts_lem cpuinfo_text meminfo_text cpu_count numa_node_count now facts h =
      let measured : facts.physical_cores ≡ parse_physical_core_count cpuinfo_text =
        ground (arith, h) in
      (
        ground (arith, h),
        λ fields e. elim (Option-cases (look_up fields (codes "MemTotal"))) [
          | inl absent ↦ absurd (ground (arith, h, e, absent))
          | inr (total, has_total) ↦ elim (Option-cases (look_up fields (codes "SwapTotal"))) [
            | inl absent ↦ absurd (ground (arith, h, e, absent))
            | inr (swap, has_swap) ↦ (
              total,
              swap,
              has_total,
              has_swap,
              ground (arith, h, e, has_total, has_swap),
              ground (arith, h, e, has_total, has_swap),
            )
          ]
        ],
        measured,
        λ z.
            nonzero_lem (length (physical_cores_of cpuinfo_text))
              (unfold parse_physical_core_count in (sym measured ∙ z)),
      )

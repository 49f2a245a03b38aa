-- ===== src/Hardware/Tests.antt =====
-- Two processors that share a core, and the memory of a small machine.
use ajit_segment_bots.Placer.{below_cgroup_root, read_process_cgroup}
use ajit_segment_bots.Hardware.Cores.{
  IsDistinct, count_core_lines, names_core, parse_physical_core_count_lem,
}
use ajit_segment_bots.Prelude.{
  ◌-◌, Option, Text, [], codes, length, lines, map, none, ok, partition, refl, some, strip, text_eq,
  words, ℕ, ◌∷◌, ◌≡◌, ◌≤◌, starts_with,
}
use ajit_segment_bots.Hardware.{
  parse_physical_core_count, measure_hardware_facts, Core, HardwareFacts, add_core, core_eq,
  cores_among, has_core, look_up, named_value, nonzero, physical_cores_of, read_meminfo_kibibytes,
  require_meminfo_field, read_own_cgroup_directory,
}

abbrev siblings : Text
siblings =
    codes
      "processor\t: 0\nphysical id\t: 0\ncore id\t: 0\nprocessor\t: 1\nphysical id\t: 0\ncore id\t: 0\nprocessor\t: 2\nphysical id\t: 0\ncore id\t: 1\n"

two_cores : parse_physical_core_count siblings ≡ some 2
unfolding parse_physical_core_count physical_cores_of cores_among named_value lines strip partition
    add_core has_core core_eq text_eq
two_cores = refl

parse_physical_core_count_lem_example :
    (parse_physical_core_count siblings ≡ nonzero (length (physical_cores_of siblings)))
    × IsDistinct (physical_cores_of siblings)
    × ((c : Core)
        → has_core (physical_cores_of siblings) c
          ≡ names_core (map named_value (lines siblings)) none c)
    × (length (physical_cores_of siblings) ≤ count_core_lines (map named_value (lines siblings)))
parse_physical_core_count_lem_example = parse_physical_core_count_lem siblings

abbrev memory : Text
memory = codes "MemTotal: 8 kB\nMemAvailable: 5 kB\nSwapTotal: 0 kB\n"

-- A reader of one digit.
abbrev one_digit : Text → Option ℕ
one_digit (c ∷ []) = some (c - 48)
one_digit _ = none

abbrev facts_of_small : HardwareFacts
facts_of_small = record {
  physical_cores = some 2;
  logical_cpus = some 3;
  total_ram_bytes = 8192;
  available_ram_bytes = 5120;
  swap_total_bytes = 0;
  numa_nodes = none;
  measured_at_ns = 7;
}

measured : measure_hardware_facts one_digit siblings memory (some 3) 0 7 ≡ ok facts_of_small
unfolding measure_hardware_facts read_meminfo_kibibytes require_meminfo_field look_up
    parse_physical_core_count physical_cores_of cores_among named_value lines strip partition
    add_core has_core core_eq text_eq words
measured = refl

-- Where the files of a process's own group are.
own_directory :
    read_own_cgroup_directory (some (codes "0::/user.slice/part.scope"))
    ≡ ok (codes "/sys/fs/cgroup/user.slice/part.scope")
unfolding read_own_cgroup_directory read_process_cgroup below_cgroup_root partition starts_with
    strip
own_directory = refl

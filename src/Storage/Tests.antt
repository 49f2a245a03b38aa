-- ===== src/Storage/Tests.antt =====
-- The mount table at a small input.
use ajit_segment_bots.Storage.Winner.{Decides, read_filesystem_type-Decides}
use ajit_segment_bots.Storage.{
  is_at_or_above, nearest_existing_ancestor, parse_mount, path_of, read_filesystem_type,
  read_mount_table, winner_among,
}
use ajit_segment_bots.Prelude.{Text, codes, lines, partition, refl, text_eq, true, words, ◌≡◌}

abbrev table : Text
table =
    codes
      "22 1 8:1 / / rw - ext4 /dev/sda1 rw\n30 22 0:2 / /tmp rw shared:1 - tmpfs tmpfs rw\nbroken\n31 22 0:3 / /tmp/keep rw - ext4 /dev/sdb rw\n"

kinds :
    (read_filesystem_type (λ _. true) (λ p. p) table (path_of (codes "/home/a")) ≡ codes "ext4")
    × (read_filesystem_type (λ _. true) (λ p. p) table (path_of (codes "/tmp/x")) ≡ codes "tmpfs")
    × (read_filesystem_type (λ _. true) (λ p. p) table (path_of (codes "/tmp/keep/x"))
        ≡ codes "ext4")
    × (read_filesystem_type (λ _. true) (λ p. p) table (path_of (codes "/tmpfs")) ≡ codes "ext4")
unfolding read_filesystem_type nearest_existing_ancestor winner_among is_at_or_above path_of
    read_mount_table parse_mount words lines partition text_eq
kinds = (refl, refl, refl, refl)

-- The theorem at the table and a path below a mount in memory.
read_filesystem_type-Decides_example :
    Decides
      (path_of (codes "/tmp/x"))
      (read_mount_table table)
      (read_filesystem_type (λ _. true) (λ p. p) table (path_of (codes "/tmp/x")))
unfolding path_of nearest_existing_ancestor
read_filesystem_type-Decides_example =
    read_filesystem_type-Decides (λ _. true) (λ p. p) table (path_of (codes "/tmp/x"))

-- ===== src/Tests/Answers.antt =====
-- Tests of the answers that need no open handle: directories, attributes, quota and names.
use unidrive_mount_linux.PathMap
use unidrive_mount_linux.Tests.Setting.{some_host, running}
use unidrive_mount_linux.Base.{
  ◌+◌, ◌-◌, ◌*◌, ◌/◌, ◌^◌, ◌≤◌, ◌<◌, max, ◌≡◌, refl, ◌≢◌, ◌↔◌, true, false, none, some, List, [],
  ◌∷◌, map, arith, contains, list_eq, nat_eq, length, str, slash,
}
use unidrive_mount_linux.Quota.{
  Quota, QuotaCache, statfs_blocks, begin_refresh, block_size, default_refresh_interval, new_cache,
  finish_refresh, is_recent,
}
use unidrive_mount_linux.Quota.Laws.{
  Event, Spaced, grants, asks, finishes, grants-Spaced, statfs_blocks_bounds,
}
use unidrive_mount_linux.Attr.{file_attr_from_cached, directory, from_entry}
use unidrive_mount_linux.Fs.Reads.{dir_entries_plus, dir_entries}
use unidrive_mount_linux.Fs.Reads.Directory.{NumberedFrom, readdir-NumberedFrom}
use unidrive_mount_linux.Ipc.Entry.{ListEntry}
use unidrive_mount_linux.Base.Int.{negsuc}
use unidrive_mount_linux.Attr.Time.{scaled, file_attr_lossless}

abbrev some_entry : ListEntry
some_entry = record {
  path = str "/a/b";
  size = 5;
  mtime_ms = negsuc 0;
  hydrated = true;
  folder = false;
  remote_modified_ms = none;
  pending_upload = false;
}

readdir-NumberedFrom_example :
    NumberedFrom 2 (record { inode = 1; kind = directory; name = str ".."; offset = 2 } ∷ [])
unfolding unidrive_mount_linux.Fs.Reads.readdir unidrive_mount_linux.Base.Exec.◌>>=◌
    unidrive_mount_linux.Base.Exec.expect_some unidrive_mount_linux.Base.Dict.lookup
    unidrive_mount_linux.PathMap.History.calls unidrive_mount_linux.PathMap.History.call
    PathMap.intern PathMap.new list_eq nat_eq unidrive_mount_linux.Fs.Listing.populate_from_list
    unidrive_mount_linux.Base.Exec.◌>>◌ unidrive_mount_linux.Fs.Listing.record_entries
    unidrive_mount_linux.Base.Exec.pure unidrive_mount_linux.Fs.Reads.dot_entries dir_entries
readdir-NumberedFrom_example = readdir-NumberedFrom {h = some_host} 1 1 running refl

file_attr_lossless_example :
    let a = file_attr_from_cached some_host.owner 3 (from_entry some_entry) in
    (a.mtime.nsec < 10 ^ 9)
    × ((a.mtime.nsec / 10 ^ 6) * 10 ^ 6 ≡ a.mtime.nsec)
    × (scaled a.mtime.sec 1000 (a.mtime.nsec / 10 ^ 6) ≡ negsuc 0)
    × (a.size ≡ 5)
    × (a.size ≤ a.blocks * 512)
    × (a.blocks * 512 < a.size + 512)
unfolding from_entry
file_attr_lossless_example = file_attr_lossless some_host.owner 3 (from_entry some_entry)

abbrev some_events : List Event
some_events = asks 5 1 ∷ asks 7 0 ∷ finishes none ∷ asks (70 * 10 ^ 9) 2 ∷ []

abbrev fresh_quota : QuotaCache
fresh_quota = new_cache default_refresh_interval

grants-Spaced_example : Spaced default_refresh_interval none (grants fresh_quota some_events)
unfolding new_cache
grants-Spaced_example = grants-Spaced fresh_quota some_events (omega arith)

grants_run : grants fresh_quota some_events ≡ 6 ∷ (70 * 10 ^ 9 + 2) ∷ []
unfolding grants begin_refresh finish_refresh is_recent new_cache
grants_run = refl

abbrev some_quota : Quota
some_quota = record { used_bytes = 5000; total_bytes = 9000 }

statfs_blocks_bounds_example :
    ((statfs_blocks (some some_quota)).1 ≤ (statfs_blocks (some some_quota)).0)
    × ((u : Quota)
        → some some_quota ≡ some u
        → ((statfs_blocks (some some_quota)).0 * block_size ≤ u.total_bytes)
          × ((statfs_blocks (some some_quota)).1 * block_size + u.used_bytes
              ≤ max u.total_bytes u.used_bytes)
          × (u.total_bytes ≤ u.used_bytes → (statfs_blocks (some some_quota)).1 ≡ 0))
statfs_blocks_bounds_example = statfs_blocks_bounds (some some_quota)

-- ===== src/Client/Transfer/Disk.antt =====
-- The files of the machine that writes. A path leads to the number of its contents, so that a file
-- that is open keeps its contents when it is renamed.
pub mod Laws
use kd_desk_tc.Prelude.{ℕ, suc, Option, none, some, [], ◌++◌, nat_eq, list_eq}
use kd_desk_tc.Proto.{Text}
use kd_desk_tc.HashMap
use kd_desk_tc.HashMap.{HashMap}

pub record Disk : Type 0 where
  pub names : HashMap Text ℕ
  pub contents : HashMap ℕ Text
  pub times : HashMap ℕ ℕ
  pub next : ℕ

unfoldable pub contents_of : Disk → ℕ → Text
contents_of d i = elim (HashMap.get d.contents i) [ none ↦ [] | some t ↦ t ]

-- What a path holds.
unfoldable pub read_path : Disk → Text → Option Text
read_path d p = elim (HashMap.get d.names p) [ none ↦ none | some i ↦ some (contents_of d i) ]

-- `File::create`: a file that is there is emptied, another is new.
unfoldable pub create : Disk → Text → Disk × ℕ
create d p = elim (HashMap.get d.names p) [
  | none ↦ (
    record d {
      names = HashMap.insert d.names p d.next;
      contents = HashMap.insert d.contents d.next [];
      next = suc d.next;
    },
    d.next,
  )
  | some i ↦ (record d { contents = HashMap.insert d.contents i [] }, i)
]

unfoldable pub append : Disk → ℕ → Text → Disk
append d i t = record d { contents = HashMap.insert d.contents i (contents_of d i ++ t) }

unfoldable pub rename : Disk → Text → Text → Disk
rename d from to = elim (HashMap.get d.names from) [
  | none ↦ d
  | some i ↦ record d { names = HashMap.insert (HashMap.remove d.names from) to i }
]

unfoldable pub remove_file : Disk → Text → Disk
remove_file d p = record d { names = HashMap.remove d.names p }

unfoldable pub set_file_mtime : Disk → Text → ℕ → Disk
set_file_mtime d p t = elim (HashMap.get d.names p) [
  | none ↦ d
  | some i ↦ record d { times = HashMap.insert d.times i t }
]

-- ===== src/Resources/State.antt =====
-- The state of a sandbox's volumes and containers (hypervisor/context.go, hypervisor/container.go,
-- hypervisor/errors.go, api/status.go), and what answers a request.
use Prim.Native.String.{String, ◌++◌ as concat}
use runv.Resources.Disks.{Disk, Volume}
use runv.Prelude.{
  ℕ, ◌+◌, ◌-◌, Bool, true, false, none, some, List, ◌∷◌, if◌then◌else◌, get_elem?, set, ltb, ◌==◌,
  string_eq,
}

pub data Kind : Type 0 where
  base not_ready spec : Kind

-- A message on the channel of a request.
pub record Result : Type 0 where
  pub kind : Kind
  pub id : String
  pub success : Bool
  pub message : String

abbrev pub result_base : String → Bool → String → Result
result_base id ok message = record { kind = base; id = id; success = ok; message = message }

abbrev pub not_ready_error : String → Result
not_ready_error id = record {
  kind = not_ready;
  id = id;
  success = false;
  message = "vm is not ready to accept requests";
}

abbrev pub spec_error : String → String → Result
spec_error id cause = record {
  kind = spec;
  id = id;
  success = false;
  message = concat "spec error: " cause;
}

-- api.ContainerDescription: of a volume reference the paths of its mount points.
pub record Description : Type 0 where
  pub id : String
  pub name : String
  pub root_volume : Volume
  pub volumes : List (String × List String)

pub record Container : Type 0 where
  pub description : Description
  pub root : ℕ

-- The goroutine of ContainerContext.add.
pub record Adding : Type 0 where
  pub container : Container
  pub group : ℕ

-- A pointer to a disk is its place in `disks`; a pointer to a WaitGroup is a key of `groups`.
-- `results` has the newest first. `panicked` is set when a WaitGroup's counter would fall below 0, and `stalled`
-- when a request sends on a full channel, which nobody reads before the request returns: it then
-- keeps the context's lock for ever.
pub record Sandbox : Type 0 where
  pub id : String
  pub running : Bool
  pub scsi_id : ℕ
  pub disks : List Disk
  pub groups : ℕ → ℕ
  pub next_group : ℕ
  pub volumes : List (String × ℕ)
  pub containers : List (String × Container)
  pub adding : List Adding
  pub results : List Result
  pub panicked : Bool
  pub stalled : Bool

-- `result <- r` where there is room for it, or in a goroutine that the caller waits for.
unfoldable pub reply : Result → Sandbox → Sandbox
reply r s = record s { results = r ∷ s.results }

-- `result <- r` in a request, on a channel that has room for one message; it is full when the request
-- has sent one before.
unfoldable pub answer : Bool → Result → Sandbox → Sandbox
unfolding reply
answer full r s = if full then record s { stalled = true } else reply r s

-- `result <- r`, on the channel of the caller or on one that nobody reads.
unfoldable pub reply_to : Bool → Result → Sandbox → Sandbox
unfolding reply
reply_to true r s = reply r s
reply_to false r s = s

unfoldable pub update : (ℕ → ℕ) → ℕ → ℕ → ℕ → ℕ
update groups g n h = if g == h then n else groups h

unfoldable pub group_add : ℕ → Sandbox → Sandbox
unfolding update
group_add g s = record s { groups = update s.groups g (s.groups g + 1) }

unfoldable pub group_done : ℕ → Sandbox → Sandbox
unfolding update
group_done g s =
    if ltb 0 (s.groups g)
    then record s { groups = update s.groups g (s.groups g - 1) }
    else record s { panicked = true }

unfoldable pub set_disk : ℕ → Disk → Sandbox → Sandbox
set_disk p d s = record s { disks = set s.disks p d }

-- A method is called on a pointer; no pointer of the code is dangling.
abbrev pub at : ℕ → (Disk → Sandbox → Sandbox) → Sandbox → Sandbox
at p f s = elim (get_elem? s.disks p) [ none ↦ s | some d ↦ f d s ]

-- ===== src/Resources/DiskSafety.antt =====
-- The methods of DiskContext and the counters of a sandbox's WaitGroups (hypervisor/disk.go).
use Prim.Native.String.{String}
use runv.Prelude.{
  ℕ, ◌+◌, ◌<◌, ◌≡◌, refl, ap, ◌∙◌, Bool, true, false, some, get_elem?, insert, delete, lookup,
  has_key, string_eq, arith, if_cases, inl, delete-nil, delete-delete_nil, ◌≢◌, ◌&&◌, not,
}
use runv.Resources.Disks.{Disk, Outcome, broken, other, completed}
use runv.Resources.State.{answer, Container, Sandbox, Result, reply, reply_to, update, set_disk}
use runv.Resources.Methods.{all_done, wait_disk, unwait_disk, unwait, inserted, failed}
use runv.Resources.Moves.{answer_insert, land, answer_remove}
use runv.Resources.Groups.{count, count-nil, count-delete, count-insert}
use runv.Resources.Safety.{
  IsSound, Rooted, IsValid, same-IsValid, elsewhere, adjust_with, adjust, at-IsValid, done-IsValid,
}

module _ (k : ℕ → ℕ) where
  -- The creator of a root disk is its first observer.
  pub wait_root-IsValid :
      (p : ℕ) (id : String) (g : ℕ) (d : Disk) (s : Sandbox)
      → get_elem? s.disks p ≡ some d
      → g < s.next_group
      → d.removing ≡ false
      → ((id : String) (c : Container)
          → lookup id s.containers ≡ some c
          → (p ≢ c.root) × Rooted id c.root s.disks)
      → IsValid k s
      → IsValid k (wait_disk p id g d s)
  unfolding wait_disk
  wait_root-IsValid p id g d s e l r u v =
      let d' : Disk = record d { observers = insert id g d.observers } in
      let i : IsSound d' = record { unready = (v.sound p d e).unready; unobserved = λ t. cc } in
      let others = λ (j : String) (c : Container) (h : lookup j s.containers ≡ some c).
        elsewhere k j c.root p d' s (u j c h).0 (u j c h).1 in
      if_cases (IsValid k) (has_key id d.observers) _ _ (λ old. v)
        λ new.
          if_cases (IsValid k) d.ready _ _
            (λ y.
              adjust_with k s p d d' s.groups e i refl refl (λ t. inl t) others
                (λ j. ground (arith, (v.sound p d e).unready))
                (λ j h. ground (arith, (v.sound p d e).unready)) v)
            (λ n.
              adjust_with k s p d d' (update s.groups g (s.groups g + 1)) e i refl refl (λ t. inl t)
                others (λ j. unfold update in ground (arith, count-insert j g id d.observers))
                (λ j h. ground (arith, count-insert j g id d.observers)) v)

  pub wait_disk-IsValid :
      (p : ℕ) (id : String) (g : ℕ) (d : Disk) (s : Sandbox)
      → get_elem? s.disks p ≡ some d
      → g < s.next_group
      → d.removing ≡ false
      → d.is_root_vol ≡ false
      → IsValid k s
      → IsValid k (wait_disk p id g d s)
  unfolding wait_disk
  wait_disk-IsValid p id g d s e l r o v =
      let d' : Disk = record d { observers = insert id g d.observers } in
      let i : IsSound d' = record { unready = (v.sound p d e).unready; unobserved = λ t. cc } in
      if_cases (IsValid k) (has_key id d.observers) _ _ (λ old. v)
        λ new.
          if_cases (IsValid k) d.ready _ _
            (λ y.
              adjust k s p d d' s.groups e i refl refl (λ t. inl t) (λ t. cc)
                (λ j. ground (arith, (v.sound p d e).unready))
                (λ j h. ground (arith, (v.sound p d e).unready)) v)
            (λ n.
              adjust k s p d d' (update s.groups g (s.groups g + 1)) e i refl refl (λ t. inl t)
                (λ t. cc) (λ j. unfold update in ground (arith, count-insert j g id d.observers))
                (λ j h. ground (arith, count-insert j g id d.observers)) v)

  pub unwait-IsValid : (p : ℕ) (id : String) (s : Sandbox) → IsValid k s → IsValid k (unwait p id s)
  unfolding unwait
  unwait-IsValid p id s v =
      at-IsValid k p (unwait_disk p id) s
        (λ d e.
          let d' : Disk = record d { observers = delete id d.observers } in
          if_cases (IsValid k) (has_key id d.observers) _ _
            (λ h.
              adjust k s p d d' s.groups e
                (record {
                  unready = (v.sound p d e).unready;
                  unobserved = λ t. ap (delete id) ((v.sound p d e).unobserved t) ∙ delete-nil id;
                })
                refl refl (λ t. inl t) (λ _ j z. delete-delete_nil j id d.observers z)
                (λ j. ground (arith, count-delete j id d.observers))
                (λ j l. ground (arith, count-delete j id d.observers)) v)
            (λ h. v))
        v

  pub reply-IsValid : (r : Result) (s : Sandbox) → IsValid k s → IsValid k (reply r s)
  unfolding reply
  reply-IsValid r s v = same-IsValid k s _ refl refl refl refl refl refl v

  pub answer-IsValid :
      (full : Bool) (r : Result) (s : Sandbox) → IsValid k s → IsValid k (answer full r s)
  unfolding answer
  answer-IsValid full r s v =
      if_cases (IsValid k) full (record s { stalled = true }) (reply r s)
        (λ y. same-IsValid k s _ refl refl refl refl refl refl v) (λ n. reply-IsValid r s v)

  pub reply_to-IsValid :
      (b : Bool) (r : Result) (s : Sandbox) → IsValid k s → IsValid k (reply_to b r s)
  unfolding reply_to
  reply_to-IsValid true r s v = same-IsValid k s _ refl refl refl refl refl refl v
  reply_to-IsValid false r s v = v

  -- The insertion of a disk is over, with or without success.
  inserting_over :
      (p : ℕ) (b : Bool) (d : Disk) (s : Sandbox) (l : Bool)
      → get_elem? s.disks p ≡ some d
      → d.inserting ≡ true
      → IsValid k s
      → IsValid k (
          all_done d.observers
            (set_disk p (record d { ready = b; inserting = false; landed = l }) s))
  inserting_over p b d s l e i v =
      done-IsValid k s p d (record d { ready = b; inserting = false; landed = l }) e
        (record { unready = λ t. cc; unobserved = (v.sound p d e).unobserved }) refl refl
        (λ t. inl t) refl (λ g. ground arith) v

  pub answer_insert-IsValid :
      (p : ℕ) (o : Outcome) (d : Disk) (s : Sandbox)
      → get_elem? s.disks p ≡ some d
      → IsValid k s
      → IsValid k (answer_insert p o d s)
  unfolding answer_insert failed set_disk
  answer_insert-IsValid p broken d s e v =
      if_cases (IsValid k) (d.inserting && not d.landed) _ _
        (λ h.
          reply_to-IsValid d.reports _ _ (inserting_over p false d s d.landed e (ground arith) v))
        (λ h. v)
  answer_insert-IsValid p other d s e v =
      if_cases (IsValid k) (d.inserting && not d.landed) _ _
        (λ h.
          reply_to-IsValid d.reports _ _ (inserting_over p false d s d.landed e (ground arith) v))
        (λ h. v)
  answer_insert-IsValid p (completed device addr) d s e v =
      let d' : Disk = record d {
        descriptor = record (d.descriptor) { device_name = device; scsi_addr = addr };
        landed = true;
      } in
      if_cases (IsValid k) (d.inserting && not d.landed) _ _
        (λ h. reply_to-IsValid d.reports _ _ (
          adjust k s p d d' s.groups e
            (record { unready = (v.sound p d e).unready; unobserved = (v.sound p d e).unobserved })
            refl refl (λ t. inl t) (λ _ id z. z) (λ g. omega arith) (λ g l. omega arith) v))
        (λ h. v)

  pub land-IsValid :
      (p : ℕ) (d : Disk) (s : Sandbox)
      → get_elem? s.disks p ≡ some d
      → IsValid k s
      → IsValid k (land p d s)
  unfolding land inserted set_disk
  land-IsValid p d s e v =
      if_cases (IsValid k) (d.inserting && d.landed) _ _
        (λ h. inserting_over p true d s false e (ground arith) v) (λ h. v)

  removal_failed :
      (p : ℕ) (d : Disk) (s : Sandbox)
      → get_elem? s.disks p ≡ some d
      → d.removing ≡ true
      → IsValid k s
      → IsValid k
          (all_done d.observers (set_disk p (record d { ready = false; removing = false }) s))
  removal_failed p d s e h v =
      let none_waits = (v.sound p d e).unobserved h in
      done-IsValid k s p d (record d { ready = false; removing = false }) e
        (record { unready = λ t. refl; unobserved = λ t. none_waits }) refl refl (λ t. cc) refl
        (λ g. omega (arith, ap (count g) none_waits, count-nil g)) v

  pub answer_remove-IsValid :
      (p : ℕ) (o : Outcome) (d : Disk) (s : Sandbox)
      → get_elem? s.disks p ≡ some d
      → IsValid k s
      → IsValid k (answer_remove p o d s)
  unfolding answer_remove failed set_disk
  answer_remove-IsValid p broken d s e v =
      if_cases (IsValid k) d.removing _ _ (λ h. reply-IsValid _ _ (removal_failed p d s e h v))
        (λ h. v)
  answer_remove-IsValid p other d s e v =
      if_cases (IsValid k) d.removing _ _ (λ h. reply-IsValid _ _ (removal_failed p d s e h v))
        (λ h. v)
  answer_remove-IsValid p (completed device addr) d s e v =
      if_cases (IsValid k) d.removing _ _
        (λ h. reply-IsValid _ _ (
          adjust k s p d (record d { removing = false }) s.groups e
            (record { unready = (v.sound p d e).unready; unobserved = λ t. cc }) refl refl (λ t. cc)
            (λ _ id z. z) (λ g. omega arith) (λ g l. omega arith) v))
        (λ h. v)

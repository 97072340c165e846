-- ===== src/Reconcile/Choose/NoLoss.antt =====
-- src/reconcile/compute.rs: which content a reconciliation overwrites or deletes.
use ensync.Base.{◌≡◌, Bool, true, false, ◌&&◌, ◌⊎◌, Option, none, some, arith}
use ensync.FileData.{FileData, matches, matches_content, newer_than}
use ensync.FileData.Compare.{
  matches→matches_content, matches_data→matches_content, matches_content_sym,
}
use ensync.SyncMode.{SyncModeSetting, SyncMode, is_force}
use ensync.Reconcile.Choose.{choose_reconciliation, Reconciliation, use_side, client, server}
use ensync.Reconcile.Choose.{in_sync, unsync, replace_side, update_file, need_split}
use ensync.Reconcile.Choose.{
  create_file, delete_file, propagate_or_revert, choose_arm, map_or_false,
}
use ensync.Reconcile.Choose.{choose_mode_mode, choose_mode_content, choose_content_mode}
use ensync.Reconcile.Choose.{choose_content_content}
use ensync.Reconcile.Choose.Rules.{use_client_of, use_server_of, choose_rule}

-- No setting of the mode is `Force`.
pub record IsConservative (m : SyncMode) : Type 0 where
  pub inbound_create : is_force m.inbound.create ≡ false
  pub inbound_update : is_force m.inbound.update ≡ false
  pub inbound_delete : is_force m.inbound.delete ≡ false
  pub outbound_create : is_force m.outbound.create ≡ false
  pub outbound_update : is_force m.outbound.update ≡ false
  pub outbound_delete : is_force m.outbound.delete ≡ false

-- The content of a file is that of the ancestor, or that of the file at the other end.
abbrev pub Backed : Option FileData → Option FileData → Option FileData → Type 0
Backed none anc other = Unit
Backed (some f) anc other =
    (map_or_false (λ a. matches_content a f) anc ≡ true)
    ⊎ (map_or_false (λ o. matches_content f o) other ≡ true)

-- What is overwritten or removed is backed.
abbrev pub Keeps : Option FileData → Option FileData → Option FileData → Reconciliation → Type 0
Keeps cli anc srv (use_side server) = Backed cli anc srv
Keeps cli anc srv (use_side client) = Backed srv anc cli
Keeps cli anc srv _ = Unit

use_server-Keeps :
    (c s : FileData) (a : Option FileData)
    → Backed (some c) a (some s)
    → Keeps (some c) a (some s) (use_server_of (some c) (some s))
unfolding replace_side
use_server-Keeps c s a h = ground arith

use_client-Keeps :
    (c s : FileData) (a : Option FileData)
    → Backed (some s) a (some c)
    → Keeps (some c) a (some s) (use_client_of (some c) (some s))
unfolding replace_side
use_client-Keeps c s a h = ground arith

module _ (P : Reconciliation → Type 0) (i o : SyncModeSetting) (uc us : Reconciliation) where
  choose_content_mode_safe :
      (q : Reconciliation) → P uc → is_force i ≡ false → P q → P (choose_content_mode i o uc us q)
  unfolding choose_content_mode is_force
  choose_content_mode_safe q p h k = ground arith

  propagate_client_safe :
      (q : Reconciliation) → P uc → is_force i ≡ false → P q → P (propagate_or_revert o i uc us q)
  unfolding propagate_or_revert
  propagate_client_safe q p h k = ground arith

  choose_mode_content_safe :
      (q : Reconciliation) → P us → is_force o ≡ false → P q → P (choose_mode_content i o uc us q)
  unfolding choose_mode_content is_force
  choose_mode_content_safe q p h k = ground arith

  propagate_server_safe :
      (q : Reconciliation) → P us → is_force o ≡ false → P q → P (propagate_or_revert i o us uc q)
  unfolding propagate_or_revert
  propagate_server_safe q p h k = ground arith

  choose_mode_mode_safe : P uc → P us → P unsync → P (choose_mode_mode i o uc us)
  unfolding choose_mode_mode
  choose_mode_mode_safe pc ps h = ground arith

  choose_content_content_safe :
      (b : Bool) (q : Reconciliation)
      → is_force i ≡ false
      → is_force o ≡ false
      → P q
      → P (choose_content_content i o b uc us q)
  unfolding choose_content_content is_force
  choose_content_content_safe b q h h' k = ground arith

need_split-Keeps :
    (c s : FileData) (a : Option FileData) (m : SyncMode) → Keeps (some c) a (some s) (need_split m)
unfolding need_split
need_split-Keeps c s a m = ground arith

map_matches→map_matches_content :
    (f : FileData) (a : Option FileData)
    → map_or_false (λ x. matches x f) a ≡ true
    → map_or_false (λ x. matches_content x f) a ≡ true
map_matches→map_matches_content f none h = h
map_matches→map_matches_content f (some a) h = matches→matches_content a f h

module _ (c s : FileData) where
  map_and_left :
      (a : Option FileData)
      → map_or_false (λ x. matches_content x c && matches_content x s) a ≡ true
      → map_or_false (λ x. matches_content x c) a ≡ true
  map_and_left none h = h
  map_and_left (some a) h = ground arith

  map_and_right :
      (a : Option FileData)
      → map_or_false (λ x. matches_content x c && matches_content x s) a ≡ true
      → map_or_false (λ x. matches_content x s) a ≡ true
  map_and_right none h = h
  map_and_right (some a) h = ground arith

-- Where no setting is `Force`, `update` takes the side of a file only if the other one is backed.
module _ (P : Reconciliation → Type 0) (uc us : Reconciliation) (c s : FileData)
    (a : Option FileData) (via_server : Backed (some c) a (some s) → P us)
    (via_client : Backed (some s) a (some c) → P uc) (stays : P in_sync) (unsyncs : P unsync) where
  update_conservative :
      (m : SyncMode) → IsConservative m → P (need_split m) → P (update_file c a s m uc us).0
  unfolding update_file
  update_conservative m v splits =
      let i = m.inbound.update in
      let o = m.outbound.update in
      ground (
        arith,
        matches_data→matches_content c s,
        matches_content_sym c s,
        map_matches→map_matches_content c a,
        map_matches→map_matches_content s a,
        map_and_left c s a,
        map_and_right c s a,
        choose_mode_mode_safe P i o uc us,
        choose_mode_content_safe P i o uc us (need_split m),
        choose_content_mode_safe P i o uc us (need_split m),
        choose_content_content_safe P i o uc us (newer_than s c) (need_split m),
        propagate_server_safe P i o uc us in_sync,
        propagate_client_safe P i o uc us in_sync,
        propagate_server_safe P i o uc us unsync,
        propagate_client_safe P i o uc us unsync,
      )

update-Keeps :
    (c s : FileData) (a : Option FileData) (m : SyncMode)
    → IsConservative m
    → Keeps
        (some c)
        a
        (some s)
        (update_file c a s m (use_client_of (some c) (some s)) (use_server_of (some c) (some s))).0
update-Keeps c s a m v =
    update_conservative (Keeps (some c) a (some s)) _ _ c s a (use_server-Keeps c s a)
      (use_client-Keeps c s a) tt tt m v (need_split-Keeps c s a m)

arm-Keeps :
    (cli anc srv : Option FileData) (m : SyncMode)
    → IsConservative m
    → Keeps cli anc srv (choose_arm cli anc srv m (use_client_of cli srv) (use_server_of cli srv)).0
unfolding choose_arm create_file delete_file replace_side
arm-Keeps none a none m v = tt
arm-Keeps (some c) none none m v = ground arith
arm-Keeps none none (some s) m v = ground arith
arm-Keeps (some c) (some a) none m v = ground arith
arm-Keeps none (some a) (some s) m v = ground arith
arm-Keeps (some c) none (some s) m v = update-Keeps c s none m v
arm-Keeps (some c) (some a) (some s) m v = update-Keeps c s (some a) m v

-- With a mode that has no `Force` setting, a file that exists at one end is overwritten with, or
-- removed like, the file at the other end only where its content is that of the ancestor or that
-- of the file at the other end (which then differs in metadata at most).
pub choose_reconciliation-Keeps :
    (cli anc srv : Option FileData) (m : SyncMode)
    → IsConservative m
    → Keeps cli anc srv (choose_reconciliation cli anc srv m).0
choose_reconciliation-Keeps cli anc srv m v =
    choose_rule (Keeps cli anc srv) cli anc srv m tt tt (arm-Keeps cli anc srv m v)

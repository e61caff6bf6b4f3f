-- ===== src/Examples/Services.antt =====
-- The theorems on the assignment, the redistribution, the members and the invites of backend/app at
-- concrete inputs, and a test of the rotation order.
use chore_app.Base.{
  ℕ, ◌≡◌, refl, ◌≤◌, ◌+◌, ◌/◌, ◌%◌, ◌↔◌, [], ◌∷◌, map, arith, length, Option, some, ◌==◌, count,
  All₂, Dict,
}
use chore_app.Models.{Household, Database, admin}
use chore_app.Session.{Session, ok, err, gone, get_db}
use chore_app.Assignment.{
  household_rows, member_ids, pick, redistribute_chores, redistribute_chores_bulk,
}
use chore_app.Assignment.Rotation.{redistribute_chores-eq-bulk, pointed}
use chore_app.Assignment.Bulk.{bulk_balanced, load_of}
use chore_app.Redistribution.{
  is_open_of, open_chores, removed_index, redistribute_chores_for_removed_member,
}
use chore_app.Redistribution.Rows.{IsMoved}
use chore_app.Redistribution.Placed.{IsNewAssignee}
use chore_app.Redistribution.Moves.{redistribute-moves}
use chore_app.Redistribution.Pointer.{redistribute-next_iff}
use chore_app.Members.{with_membership, deactivate}
use chore_app.Members.Guards.{IsGuarded}
use chore_app.Members.Admins.{remove, update_role, leave, serve_all, serve_all-IsGuarded}
use chore_app.Deps.{require_admin, require_household_member}
use chore_app.Households.{HouseholdResponse}
use chore_app.Invites.{join_household, InviteResponse, is_live, create_invite, accept_invite}
use chore_app.Invites.Single.{accept_invite-once, create_invite-one_live}
use chore_app.Engine.Sorting.{sort_by}
use chore_app.Examples.Sorting.{sorting}
use chore_app.Examples.Samples.{home, flat}

abbrev session : Database → Session
session db = record { working = db; committed = db }

rotation : member_ids sorting 1 home ≡ 1 ∷ 2 ∷ 3 ∷ []
unfolding member_ids sort_by
rotation = refl

serve_all-IsGuarded_example :
    IsGuarded 1
      (serve_all sorting (remove 1 2 1 ∷ leave 1 1 ∷ update_role 1 3 admin 1 ∷ leave 1 1 ∷ []) home)
serve_all-IsGuarded_example =
    serve_all-IsGuarded sorting
      (remove 1 2 1 ∷ leave 1 1 ∷ update_role 1 3 admin 1 ∷ leave 1 1 ∷ []) 1 home
      (
        (
          (omega arith, (omega arith, (omega arith, tt))),
          ((omega arith, (omega arith, tt)), ((omega arith, tt), (tt, tt))),
        ),
        omega arith,
      )

redistribute_chores-eq-bulk_example :
    redistribute_chores sorting (31 ∷ 32 ∷ 31 ∷ []) 1 (session home)
    ≡ redistribute_chores_bulk sorting (31 ∷ 32 ∷ 31 ∷ []) 1 (session home)
redistribute_chores-eq-bulk_example =
    redistribute_chores-eq-bulk sorting 1 (31 ∷ 32 ∷ 31 ∷ []) (session home)

bob_once : count (λ m. m == 2) (member_ids sorting 1 home) ≡ 1
unfolding member_ids sort_by
bob_once = refl

bulk_balanced_example :
    let k = length (member_ids sorting 1 home) in
    (a : Dict (Option ℕ)) × (redistribute_chores_bulk sorting
        (30 ∷ 31 ∷ 32 ∷ 33 ∷ [])
        1
        (session home)
      ≡ (ok a, pointed 1 8 (session home)))
    × (map (λ e. e.0) a ≡ 30 ∷ 31 ∷ 32 ∷ 33 ∷ [])
    × (4 / k ≤ load_of 2 a)
    × (load_of 2 a ≤ 4 / k + 1)
bulk_balanced_example =
    bulk_balanced sorting 1 2 (30 ∷ 31 ∷ 32 ∷ 33 ∷ []) (session home) flat refl bob_once
      (
        (omega arith, (omega arith, (omega arith, tt))),
        ((omega arith, (omega arith, tt)), ((omega arith, tt), (tt, tt))),
      )
      (λ e. cc)

-- Cid has left, and has two open chores.
abbrev without_cid : Session
without_cid = session (with_membership 13 deactivate home)

redistribute-moves_example :
    (s' : Session) × (redistribute_chores_for_removed_member sorting 3 1 without_cid ≡ (ok tt, s'))
    × All₂
        (IsMoved (IsNewAssignee 1 without_cid.working) (is_open_of 3 1))
        home.instances
        s'.working.instances
redistribute-moves_example =
    redistribute-moves sorting 3 1 without_cid flat
      ((omega arith, (omega arith, tt)), ((omega arith, tt), (tt, tt))) refl refl

-- Ann has left, and has no open chores.
abbrev without_ann : Session
without_ann = session (with_membership 11 deactivate home)

no_chores : open_chores sorting 1 1 without_ann.working ≡ []
unfolding open_chores
no_chores = refl

ann_first : removed_index sorting 1 1 (some flat) without_ann.working ≡ some 0
unfolding removed_index sort_by
ann_first = refl

others : member_ids sorting 1 without_ann.working ≡ 2 ∷ 3 ∷ []
unfolding member_ids sort_by
others = refl

redistribute-next_iff_example :
    (s' : Session) × (h' : Household) × (redistribute_chores_for_removed_member sorting 1 1
        without_ann
      ≡ (ok tt, s'))
    × (household_rows 1 s'.working ≡ h' ∷ [])
    × ((pick (member_ids sorting 1 s'.working) h'.rotation_pointer ≡ pick (1 ∷ 2 ∷ 3 ∷ []) 4)
        ↔ (4 / 3 % 2 ≡ 0))
redistribute-next_iff_example =
    redistribute-next_iff sorting 1 1 without_ann flat [] (2 ∷ 3 ∷ []) refl refl no_chores ann_first
      others ((omega arith, tt), (tt, tt)) (omega arith) (λ e. omega arith)

-- Ann joins the barn.
abbrev barn_answer : HouseholdResponse
barn_answer = record { id = 2; name = "Barn"; created_at = 350 }

abbrev joined_barn : Database
joined_barn = (get_db (accept_invite "abcdefghij" 1 15 1500 1501) home).1

joins : get_db (accept_invite "abcdefghij" 1 15 1500 1501) home ≡ (ok barn_answer, joined_barn)
unfolding get_db accept_invite join_household
joins = refl

accept_invite-once_example :
    get_db (accept_invite "abcdefghij" 2 16 1600 1601) joined_barn ≡ (err gone, joined_barn)
accept_invite-once_example =
    accept_invite-once "abcdefghij" 1 15 1500 1501 2 16 1600 1601 home joined_barn barn_answer joins

-- Cid invites to the barn again.
abbrev new_link : InviteResponse
new_link = record {
  token = "klmnopqrst";
  invite_url = "https://chores/join/klmnopqrst";
  expires_at = 1600;
}

abbrev invited : Database
invited =
    (get_db (create_invite "https://chores" 2 3 "klmnopqrst" 41 100 1500 1501 1502 1503) home).1

invites :
    get_db (create_invite "https://chores" 2 3 "klmnopqrst" 41 100 1500 1501 1502 1503) home
    ≡ (ok (new_link), invited)
unfolding get_db create_invite require_admin require_household_member
invites = refl

create_invite-one_live_example : count (is_live 2 1550) invited.invites ≡ 1
create_invite-one_live_example =
    create_invite-one_live "https://chores" 2 3 "klmnopqrst" 41 100 1500 1501 1502 1503 1550 home
      invited (new_link) invites (omega arith) (omega arith) (omega arith)

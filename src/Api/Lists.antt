-- ===== src/Api/Lists.antt =====
-- internal/api/lists.go: how an owner creates, reads, changes and deletes a list. `ListLists` is not
-- modelled.
use yaadegar.Base.{String, Bool, true, false, ◌==◌, Option, none, some, if◌then◌else◌, ltb}
use yaadegar.Base.Int.{ℤ}
use yaadegar.Storage.{
  Error, invalid_list_title, Time, zero_time, GiftList, Visibility, ReserverTier, Account, UserRole,
}
use yaadegar.Sqlstore.Lists
use yaadegar.World.{Flow, Act, stop, value, give, stop_if, write, ◌>>=◌, ◌>>◌}
use yaadegar.Api.{Runtime, Reply, on_not_found}
use yaadegar.Api.Owned.{own_list, for_tenant, Patch, patch, merge}

-- What a list shows of itself to its owner.
pub record ListView : Type 0 where
  pub id : String
  pub title : String
  pub visibility : Visibility
  pub share_slug : String
  pub event_date : Option Time
  pub decay_days : Option ℤ
  pub reserver_tier : Option ReserverTier
  pub reserver_confirm_window : Option ℤ
  pub allow_cobuy : Bool
  pub thank_you_template : String
  pub description : String
  pub is_active : Bool
  pub created_at : Time

unfoldable pub to_gen_list : GiftList → ListView
to_gen_list l = record {
  id = l.id;
  title = l.title;
  visibility = l.visibility;
  share_slug = l.share_slug;
  event_date = l.event_date;
  decay_days = l.decay_days;
  reserver_tier = l.reserver_tier;
  reserver_confirm_window = l.reserver_confirm_window_minutes;
  allow_cobuy = l.allow_cobuy;
  thank_you_template = l.thank_you_template;
  description = l.description;
  is_active = l.is_active;
  created_at = l.created_at;
}

pub record CreateListBody : Type 0 where
  pub title : String
  pub visibility : Option Visibility
  pub event_date : Option Time
  pub decay_days : Option ℤ
  pub reserver_tier : Option String
  pub reserver_confirm_window : Option ℤ

pub record UpdateListBody : Type 0 where
  pub title : Option String
  pub visibility : Option Visibility
  pub event_date : Patch Time
  pub decay_days : Patch ℤ
  pub reserver_confirm_window : Patch ℤ
  pub reserver_tier : Patch String
  pub is_active : Option Bool
  pub allow_cobuy : Option Bool
  pub thank_you_template : Option String
  pub description : Option String

known_tier : String → Option ReserverTier
known_tier s =
    if s == "full_guest"
    then some ReserverTier.full_guest
    else (if s == "email_confirmed"
        then some ReserverTier.email_confirmed
        else (if s == "registered" then some ReserverTier.registered else none))

abbrev pub invalid_tier : Reply
invalid_tier = Reply.problem 400 "invalid reserver_tier"

known : Option ReserverTier → Flow Reply (Option ReserverTier)
known none = stop invalid_tier
known (some t) = value (some t)

-- `parseReserverTier`, with the reply to a tier that is none.
unfoldable pub parse_reserver_tier : Option String → Flow Reply (Option ReserverTier)
unfolding known_tier known
parse_reserver_tier none = value none
parse_reserver_tier (some s) = known (known_tier s)

abbrev pub visibility_of : Option Visibility → Visibility
visibility_of none = Visibility.unset
visibility_of (some v) = v

unfoldable pub new_list : CreateListBody → Option ReserverTier → GiftList
new_list b tier = record {
  id = "";
  tenant_id = "";
  owner_id = "";
  title = b.title;
  visibility = visibility_of b.visibility;
  share_slug = "";
  event_date = b.event_date;
  decay_days = b.decay_days;
  reserver_tier = tier;
  reserver_confirm_window_minutes = b.reserver_confirm_window;
  allow_cobuy = false;
  thank_you_template = "";
  description = "";
  is_active = true;
  created_at = zero_time;
}

abbrev pub on_title : Error → Reply
on_title invalid_list_title = Reply.problem 400 "a list title cannot be blank"
on_title e = Reply.failed e

abbrev pub is_owner_role : UserRole → Bool
is_owner_role UserRole.owner = true
is_owner_role UserRole.giver = false

create_with : Runtime → String → Account → CreateListBody → Act Reply ListView
unfolding new_list to_gen_list
create_with rt tenant a b = do
  tier ← λ w. (parse_reserver_tier b.reserver_tier, w)
  l ←
      write on_title
        (Lists.create rt.trim_space tenant rt.new_id rt.new_slug rt.now (new_list b tier) a.id)
  give (to_gen_list l)

unfoldable pub create_list :
    Runtime → Option String → Option Account → Option CreateListBody → Act Reply ListView
unfolding create_with
create_list rt none caller body w = (stop Reply.missing_context, w)
create_list rt (some tenant) none body w = (stop Reply.missing_context, w)
create_list rt (some tenant) (some a) none w =
    if is_owner_role a.role
    then (stop (Reply.problem 400 "missing request body"), w)
    else (stop (Reply.problem 403 "this action requires an owner account"), w)
create_list rt (some tenant) (some a) (some b) w =
    if is_owner_role a.role
    then create_with rt tenant a b w
    else (stop (Reply.problem 403 "this action requires an owner account"), w)

unfoldable pub get_list : Option String → Option Account → String → Act Reply ListView
unfolding to_gen_list
get_list tenant caller id =
    for_tenant tenant λ t. own_list caller t id >>= λ l. give (to_gen_list l)

patched_tier : Patch String → Option ReserverTier → Flow Reply (Option ReserverTier)
unfolding parse_reserver_tier
patched_tier Patch.absent old = value old
patched_tier Patch.cleared old = value none
patched_tier (Patch.set_to s) old = parse_reserver_tier (some s)

too_long : Runtime → Option String → Bool
too_long rt none = false
too_long rt (some d) = ltb 2000 (rt.rune_count d)

unfoldable pub merge_list : UpdateListBody → Option ReserverTier → GiftList → GiftList
merge_list b tier l = record l {
  title = merge b.title l.title;
  visibility = merge b.visibility l.visibility;
  event_date = patch b.event_date l.event_date;
  decay_days = patch b.decay_days l.decay_days;
  reserver_confirm_window_minutes =
      patch b.reserver_confirm_window l.reserver_confirm_window_minutes;
  reserver_tier = tier;
  is_active = merge b.is_active l.is_active;
  allow_cobuy = merge b.allow_cobuy l.allow_cobuy;
  thank_you_template = merge b.thank_you_template l.thank_you_template;
  description = merge b.description l.description;
}

unfoldable pub update_with :
    Runtime → String → Option Account → String → UpdateListBody → Act Reply ListView
unfolding patched_tier too_long merge_list to_gen_list
update_with rt tenant caller id b = do
  l ← own_list caller tenant id
  tier ← λ w. (patched_tier b.reserver_tier l.reserver_tier, w)
  stop_if (too_long rt b.description) (Reply.problem 400 "description is too long")
  l' ← write on_title (Lists.update rt.trim_space tenant (merge_list b tier l))
  give (to_gen_list l')

unfoldable pub update_list :
    Runtime → Option String → Option Account → String → Option UpdateListBody → Act Reply ListView
unfolding update_with
update_list rt none caller id body w = (stop Reply.missing_context, w)
update_list rt (some tenant) caller id none w = (stop (Reply.problem 400 "missing request body"), w)
update_list rt (some tenant) caller id (some b) w = update_with rt tenant caller id b w

unfoldable pub delete_list : Option String → Option Account → String → Act Reply Reply
delete_list tenant caller id = for_tenant tenant λ t. own_list caller t id >>= λ l.
    write (on_not_found 404 "list not found") (Lists.delete t id) >> give Reply.no_content

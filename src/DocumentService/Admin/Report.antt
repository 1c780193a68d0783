-- ===== src/DocumentService/Admin/Report.antt =====
-- What an administrator is told of the queue, and that nobody else is.
use ai_document_analysis.Prelude.{
  ℕ, ◌≡◌, ◌≢◌, refl, sym, ap, ap₂, ◌∙◌, Bool, false, ◌||◌, ◌⊎◌, inl, inr, Option, none, some, [],
  ◌∷◌, ◌++◌, Text, codes, text-Eq, text_eq, text_eq_iff, arith,
}
use ai_document_analysis.Prelude.Order.{
  IsAscending, is_in, sorted_set-IsAscending, is_in-sorted_set, is_in-append,
}
use ai_document_analysis.Shared.Exceptions.{Exception, ok, raise, status_code}
use ai_document_analysis.Shared.Oauth.{CurrentUser, role_in, require_role, require_admin}
use ai_document_analysis.DocumentService.Admin.{
  Replies, Broker, QueueStatsResponse, or_no_workers, total_tasks, names, stats_of, get_queue_stats,
  unknown_stats, queue_stats,
}

abbrev pub admin : Option Text
admin = some (codes "admin")

-- A worker that answers.
abbrev pub answers : Text → Replies → Bool
answers name replies = is_in name (names (or_no_workers replies))

-- The first of the calls that raises, raises this.
pub data Raises (b : Broker) (e : Text) : Type 0 where
  counting : b.message_count ≡ inl e → Raises b e
  inspecting_active : (pending : ℕ) → b.message_count ≡ inr pending → b.active ≡ inl e → Raises b e
  inspecting_reserved :
      (pending : ℕ) (active : Replies)
      → b.message_count ≡ inr pending
      → b.active ≡ inr active
      → b.reserved ≡ inl e
      → Raises b e

-- Where every call is answered, the counts are those of the answers, and the names are those of the
-- workers that answer at all, in ascending order and none twice; else there are zeros and an error.
pub record IsReport (b : Broker) (r : QueueStatsResponse) : Type 0 where
  pub ascending : IsAscending r.workers_online
  pub told :
      (pending : ℕ) (active reserved : Replies)
      → b.message_count ≡ inr pending
      → b.active ≡ inr active
      → b.reserved ≡ inr reserved
      → (r.error ≡ none)
        × (r.pending_in_queue ≡ pending)
        × (r.active_tasks ≡ total_tasks (or_no_workers active))
        × (r.reserved_tasks ≡ total_tasks (or_no_workers reserved))
        × ((name : Text)
            → is_in name r.workers_online ≡ (answers name active || answers name reserved))
  pub unknown : (e : Text) → Raises b e → r ≡ unknown_stats e

stats_of-told :
    (pending : ℕ) (active reserved : Replies)
    → let r = stats_of pending (or_no_workers active) (or_no_workers reserved) in
      IsAscending r.workers_online
      × ((name : Text)
          → is_in name r.workers_online ≡ (answers name active || answers name reserved))
unfolding stats_of
stats_of-told pending active reserved = (
  sorted_set-IsAscending (names (or_no_workers active) ++ names (or_no_workers reserved)),
  λ name.
      is_in-sorted_set name (names (or_no_workers active) ++ names (or_no_workers reserved))
      ∙ is_in-append name (names (or_no_workers active)) (names (or_no_workers reserved)),
)

get_queue_stats-IsReport :
    (m : Text ⊎ ℕ) (a s : Text ⊎ Replies)
    → let b : Broker = record { message_count = m; active = a; reserved = s } in
      IsReport b (elim (get_queue_stats b) [ inl e ↦ unknown_stats e | inr stats ↦ stats ])
unfolding get_queue_stats stats_of
get_queue_stats-IsReport (inl e) a s = record {
  ascending = tt;
  told = λ pending active reserved m. cc m;
  unknown = λ x r. elim r [
    | counting m ↦ cc m
    | inspecting_active pending m h ↦ cc m
    | inspecting_reserved pending active m h k ↦ cc m
  ];
}
get_queue_stats-IsReport (inr pending) (inl e) s = record {
  ascending = tt;
  told = λ p active reserved m h. cc h;
  unknown = λ x r. elim r [
    | counting m ↦ cc m
    | inspecting_active p m h ↦ cc h
    | inspecting_reserved p active m h k ↦ cc h
  ];
}
get_queue_stats-IsReport (inr pending) (inr active) (inl e) = record {
  ascending = tt;
  told = λ p a s m h k. cc k;
  unknown = λ x r. elim r [
    | counting m ↦ cc m
    | inspecting_active p m h ↦ cc h
    | inspecting_reserved p a m h k ↦ cc k
  ];
}
get_queue_stats-IsReport (inr pending) (inr active) (inr reserved) =
    let (ascending, online) = stats_of-told pending active reserved in
    record {
      ascending = ascending;
      told = λ p a s m h k.
          let (same_a, same_s) : (active ≡ a) × (reserved ≡ s) = (cc h, cc k) in
          (
            refl,
            cc m,
            ap (λ x. total_tasks (or_no_workers x)) same_a,
            ap (λ x. total_tasks (or_no_workers x)) same_s,
            λ name. online name ∙ ap₂ (λ x y. answers name x || answers name y) same_a same_s,
          );
      unknown = λ x r. elim r [
        | counting m ↦ cc m
        | inspecting_active p m h ↦ cc h
        | inspecting_reserved p a m h k ↦ cc k
      ];
    }

role_in_other : (role : Option Text) → role ≢ admin → role_in role (codes "admin" ∷ []) ≡ false
role_in_other none other = refl
role_in_other (some r) other =
    let differs : codes "admin" ≢ r = λ e. other (ap some (sym e)) in
    ground (arith, text_eq_iff (codes "admin") r, differs)

-- What the route answers an administrator.
abbrev answer_of : Broker → QueueStatsResponse
answer_of b = elim (get_queue_stats b) [ inl e ↦ unknown_stats e | inr stats ↦ stats ]

queue_stats-admin :
    (user : CurrentUser) (b : Broker) → user.role ≡ admin → queue_stats user b ≡ ok (answer_of b)
unfolding queue_stats require_admin require_role text_eq
queue_stats-admin user b is_admin = rw is_admin refl

abbrev not_permitted : Exception
not_permitted = Exception.forbidden (codes "You do not have permission to perform this action")

queue_stats_other :
    (user : CurrentUser) (b : Broker) → user.role ≢ admin → queue_stats user b ≡ raise not_permitted
unfolding queue_stats require_admin require_role
queue_stats_other user b other = rw (role_in_other user.role other) refl

-- A caller who is not an administrator is refused with a status of 403. An administrator is always
-- answered, whatever RabbitMQ and the workers do: if a call raises, with zeros and the text of the
-- first exception; else with the counts that they gave, and with the names of exactly the workers
-- that answered, ascending and none twice.
pub queue_stats-IsReport :
    (user : CurrentUser) (b : Broker)
    → (user.role ≡ admin → (r : QueueStatsResponse) × (queue_stats user b ≡ ok r) × IsReport b r)
      × (user.role ≢ admin
          → (e : Exception) × (queue_stats user b ≡ raise e) × (status_code e ≡ 403))
unfolding status_code
queue_stats-IsReport user b = (
  λ is_admin. (
    answer_of b,
    queue_stats-admin user b is_admin,
    get_queue_stats-IsReport b.message_count b.active b.reserved,
  ),
  λ other. (not_permitted, queue_stats_other user b other, refl),
)

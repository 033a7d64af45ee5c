-- ===== src/Agent/Hub/Notices.antt =====
-- Live notifications (agent/events.go: PublishNotification and NotificationSubscription).
--
-- `is_open` says whether the subscription is in `h.notificationSubs`. The data of a notification are
-- left out, since they are only handed on.
use awesome_go_agents.Base.{
  ℕ, Bool, true, false, not, ◌&&◌, List, [], ◌∷◌, ◌++◌, map, String, ltb, if◌then◌else◌, length,
  str_eq,
}
use awesome_go_agents.Session.Blocks.{is_blank}

pub record Notification : Type 0 where
  pub type : String
  pub session_id : String
  pub run_id : String
  pub call_id : String

pub record NotificationSubscription : Type 0 where
  pub session_id : String
  pub limit : ℕ
  pub ch : List Notification
  pub is_open : Bool

-- `subscribeNotifications`
unfoldable pub subscribe_notifications : ℕ → String → NotificationSubscription
subscribe_notifications limit session_id = record {
  session_id = session_id;
  limit = limit;
  ch = [];
  is_open = true;
}

-- `removeNotification`
unfoldable pub remove_notification : NotificationSubscription → NotificationSubscription
remove_notification s = record s { is_open = false }

-- `PublishNotification`, for one subscription: one that is full is disconnected.
unfoldable pub notify : Notification → NotificationSubscription → NotificationSubscription
unfolding remove_notification
notify n s =
    if not s.is_open
    then s
    else if not (is_blank s.session_id) && not (str_eq n.session_id s.session_id)
    then s
    else if ltb (length s.ch) s.limit
    then record s { ch = s.ch ++ (n ∷ []) }
    else remove_notification s

unfoldable pub publish_notification :
    Notification → List NotificationSubscription → List NotificationSubscription
unfolding notify
publish_notification n subs = map (notify n) subs

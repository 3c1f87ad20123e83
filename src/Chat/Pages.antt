-- ===== src/Chat/Pages.antt =====
-- chat/server.c: what a client is shown, `show_last_messages`, `show_conversation_list`,
-- `open_chat` and `show_admin_page`.
use linux_network_lab.Base.{
  ℕ, suc, Bool, true, false, not, List, [], ◌∷◌, ◌++◌, none, some, map, if◌then◌else◌, ℤ, ◌==ℤ◌,
}
use linux_network_lab.Chat.Users.{User, truthy, user_at, find_user_index_by_id}
use linux_network_lab.Chat.State.{
  mode_chat, Client, Reply, user_not_found, not_with_yourself, chat_header, read_only, leave_hint,
  no_previous_messages, history_header, history_footer, history_line, chats_header,
  no_conversations, menu_help, menu_admin_help, menu_footer, contact, admin_header, admin_help,
  admin_entry, Chat, Answers, client_at, set_client, tell, find_client_by_user_id,
}
use linux_network_lab.Chat.Messages.{HistoryMessage, last_messages, conversations}

-- "unknown"
abbrev pub unknown : List ℕ
unknown = 117 ∷ 110 ∷ 107 ∷ 110 ∷ 111 ∷ 119 ∷ 110 ∷ []

abbrev pub name_or_unknown : List User → ℤ → List ℕ
name_or_unknown users id = elim (find_user_index_by_id users id) [
  | none ↦ unknown
  | some k ↦ (user_at users k).username
]

-- Replies one after the other.
unfoldable pub tell_all : ℕ → List Reply → Chat → Chat
tell_all i [] s = s
tell_all i (r ∷ rs) s = tell_all i rs (tell i r s)

abbrev pub history_reply : List User → HistoryMessage → Reply
history_reply users m = history_line m.timestamp (name_or_unknown users m.sender_id) m.message

abbrev pub history_page : List User → List HistoryMessage → List Reply
history_page users [] = no_previous_messages ∷ []
history_page users (m ∷ history) =
    history_header ∷ (map (history_reply users) (m ∷ history) ++ history_footer ∷ [])

unfoldable pub show_last_messages : Answers → ℕ → ℤ → Chat → Chat
show_last_messages io i partner s =
    if not io.read_opened
    then tell i no_previous_messages s
    else tell_all i
        (history_page s.users (last_messages (client_at s i).user_id partner s.messages_db)) s

abbrev pub is_online : List Client → ℤ → Bool
is_online clients id = elim (find_client_by_user_id clients id) [ none ↦ false | some j ↦ true ]

-- The entries with their numbers; one whose user is not found is left out.
unfoldable pub contact_lines : Chat → ℕ → List ℤ → List Reply
contact_lines s n [] = []
contact_lines s n (id ∷ ids) =
    let rest = contact_lines s (suc n) ids in
    elim (find_user_index_by_id s.users id) [
      | none ↦ rest
      | some k ↦
          contact n (user_at s.users k).username (truthy (user_at s.users k).active)
            (is_online s.clients (user_at s.users k).id)
          ∷ rest
    ]

abbrev pub no_contacts_line : List ℤ → List Reply
no_contacts_line [] = no_conversations ∷ []
no_contacts_line (id ∷ ids) = []

abbrev pub is_admin_id : List User → ℤ → Bool
is_admin_id users id = elim (find_user_index_by_id users id) [
  | none ↦ false
  | some k ↦ truthy (user_at users k).is_admin
]

unfoldable pub menu_page : Chat → ℤ → List ℤ → List Reply
menu_page s me ids =
    chats_header
    ∷ (no_contacts_line ids
        ++ (contact_lines s 1 ids
            ++ menu_help
              ∷ ((if is_admin_id s.users me then menu_admin_help ∷ [] else [])
                  ++ menu_footer ∷ [])))

abbrev pub listed : Answers → ℤ → Chat → List ℤ
listed io me s =
    if io.read_opened then map (λ c. c.contact_id) (conversations me s.messages_db) else []

unfoldable pub show_conversation_list : Answers → ℕ → Chat → Chat
show_conversation_list io i s =
    let c = client_at s i in
    let ids = listed io c.user_id s in
    tell_all i (menu_page s c.user_id ids) (set_client i (record c { menu_contact_ids = ids }) s)

unfoldable pub open_chat : Answers → ℕ → ℤ → Chat → Chat
open_chat io i partner s = elim (find_user_index_by_id s.users partner) [
  | none ↦ tell i user_not_found s
  | some k ↦
      if partner ==ℤ (client_at s i).user_id
      then tell i not_with_yourself s
      else tell i leave_hint (
          show_last_messages io i partner (
            tell_all i
              (chat_header (user_at s.users k).username
                ∷ (if truthy (user_at s.users k).active then [] else read_only ∷ []))
              (set_client i (record (client_at s i) { mode = mode_chat; chat_partner_id = partner })
                s)))
]

unfoldable pub admin_entries : ℕ → List User → List Reply
admin_entries n [] = []
admin_entries n (u ∷ users) = admin_entry n u ∷ admin_entries (suc n) users

unfoldable pub show_admin_page : ℕ → Chat → Chat
show_admin_page i s = tell_all i (admin_header ∷ (admin_entries 1 s.users ++ admin_help ∷ [])) s

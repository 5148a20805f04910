-- ===== src/Tests/Sessions.antt =====
-- Two users; the second one logs in on a connection that another user had.
use cpp_chat.Base.{◌≡◌, some, if◌then◌else◌, ◌==◌, codes, string_eq}
use cpp_chat.Base.Maps.{lookup}
use cpp_chat.Session.{Session, SessionManager, empty, bind, find}
use cpp_chat.Session.Consistency.{IsConsistent, empty-IsConsistent}
use cpp_chat.Session.Methods.{bind-IsConsistent, IsNameFree}
use cpp_chat.Session.Views.{unless_connection, find-bind}

abbrev alice : Session
alice = record { user_id = 1; connection_id = 7; username = codes "alice" }

abbrev bob : Session
bob = record { user_id = 2; connection_id = 7; username = codes "bob" }

one_user : SessionManager
unfolding bind
one_user = bind empty alice

alice-IsNameFree : IsNameFree empty alice
unfolding lookup
alice-IsNameFree = λ u h. absurd (cc)

bind-IsConsistent_example : IsConsistent (bind empty alice)
bind-IsConsistent_example = bind-IsConsistent empty alice empty-IsConsistent alice-IsNameFree

alice_online : IsConsistent one_user
unfolding one_user
alice_online = bind-IsConsistent empty alice empty-IsConsistent alice-IsNameFree

find-bind_example :
    find (bind one_user bob) 1
    ≡ (if 2 == 1 then some bob else unless_connection 7 (find one_user 1))
find-bind_example = find-bind one_user bob 1 alice_online

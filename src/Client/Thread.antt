-- ===== src/Client/Thread.antt =====
-- The life of the client's thread: Client::new, pw_thread and the drop of a Client of
-- client/src/client.rs, and get_app_name of client/src/utils.rs.
pub mod Dropped
use pw_capture.Common.{
  ℕ, Bool, true, false, ◌&&◌, ◌||◌, ◌==◌, if◌then◌else◌, Option, none, some, List, [], ◌∷◌, ◌++◌,
}
use pw_capture.Client.Manager.{
  StreamMaker, ClientImpl, new_client, Message, client_terminate, receive_all,
}

-- Whether PipeWire gives a main loop, a context and a connection.
pub record Startup : Type 0 where
  pub main_loop : Bool
  pub context : Bool
  pub connect : Bool

-- The thread up to its loop; an error ends it, and drops the sender that tells that it is done.
unfoldable pub pw_thread : Startup → Option ClientImpl
pw_thread s = if s.main_loop && s.context && s.connect then some new_client else none

-- `recv` fails where the sender was dropped.
unfoldable pub client_new : Startup → Option ClientImpl
unfolding pw_thread
client_new s = pw_thread s

-- The drop of a client whose thread still has `pending` messages: `terminate` is sent behind them,
-- and the thread is joined; a thread that has ended takes no message and is not joined.
module _ (pw : StreamMaker) where
  unfoldable pub client_drop : List Message → ClientImpl → Option ClientImpl
  client_drop pending c =
      let joined = receive_all pw (pending ++ client_terminate ∷ []) c in
      if c.running then joined else some c

-- Names by their characters.
abbrev pub Name : Type 0
Name = List ℕ

unfoldable pub same_name : Name → Name → Bool
same_name [] [] = true
same_name [] (y ∷ ys) = false
same_name (x ∷ xs) [] = false
same_name (x ∷ xs) (y ∷ ys) = let rest = same_name xs ys in if x == y then rest else false

-- `pop`.
unfoldable pub without_last : Name → Name
without_last [] = []
without_last (x ∷ []) = []
without_last (x ∷ y ∷ xs) = x ∷ without_last (y ∷ xs)

-- "wine-preloader".
abbrev pub wine_preloader : Name
wine_preloader =
    119 ∷ 105 ∷ 110 ∷ 101 ∷ 45 ∷ 112 ∷ 114 ∷ 101 ∷ 108 ∷ 111 ∷ 97 ∷ 100 ∷ 101 ∷ 114 ∷ []

-- "wine64-preloader".
abbrev pub wine64_preloader : Name
wine64_preloader =
    119 ∷ 105 ∷ 110 ∷ 101 ∷ 54 ∷ 52 ∷ 45 ∷ 112 ∷ 114 ∷ 101 ∷ 108 ∷ 111 ∷ 97 ∷ 100 ∷ 101 ∷ 114 ∷ []

-- "unknown".
abbrev pub unknown_name : Name
unknown_name = 117 ∷ 110 ∷ 107 ∷ 110 ∷ 111 ∷ 119 ∷ 110 ∷ []

unfoldable pub is_preloader : Name → Bool
unfolding same_name
is_preloader n = same_name n wine_preloader || same_name n wine64_preloader

-- The content of /proc/self/comm, if it can be read, ends with a line break.
unfoldable pub get_command_name : Option Name → Option Name
unfolding without_last
get_command_name none = none
get_command_name (some f) = some (without_last f)

abbrev pub or_unknown : Option Name → Name
or_unknown none = unknown_name
or_unknown (some n) = n

-- `program` is the file name of the running program's path, if there is one.
unfoldable pub get_app_name : Option Name → Option Name → Name
unfolding is_preloader get_command_name
get_app_name none comm = or_unknown (get_command_name comm)
get_app_name (some n) comm = if is_preloader n then or_unknown (get_command_name comm) else n

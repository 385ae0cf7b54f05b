-- ===== src/Client.antt =====
-- client.cpp: the console client. The main thread reads the user's input and sends requests, and a
-- second thread reads what the server sends.
pub mod Requests
pub mod Commands
pub mod Responses
pub mod Session
pub mod Startup
use high_performance_chatser.Prelude.{ℕ, false, Bool, Bytes, codes, List, [], ◌∷◌, ◌++◌}
use high_performance_chatser.Model.Types.{User, Group, default_user}

-- Where the main thread is: at the menu of `main`, at a `sem_wait`, in `mainMenu`, or gone.
pub data Phase : Type 0 where
  at_top awaiting_login awaiting_reg in_menu exited : Phase

-- The globals of client.cpp, what was sent to the server and what was printed, line by line.
pub record Client : Type 0 where
  pub current_user : User
  pub friend_list : List User
  pub group_list : List Group
  pub is_main_menu_running : Bool
  pub is_login_success : Bool
  pub permits : ℕ  -- the value of `rwsem`
  pub phase : Phase
  pub sent : List Bytes
  pub shown : List Bytes

abbrev pub new_client : Client
new_client = record {
  current_user = default_user;
  friend_list = [];
  group_list = [];
  is_main_menu_running = false;
  is_login_success = false;
  permits = 0;
  phase = at_top;
  sent = [];
  shown = [];
}

abbrev pub show : Bytes → Client → Client
show line c = record c { shown = c.shown ++ line ∷ [] }

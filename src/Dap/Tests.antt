-- ===== src/Dap/Tests.antt =====
-- daemon/src/dap.rs: the theorems at a new server.
use php_periscope.Common.{ℕ, none, some, [], ◌∷◌, ◌≡◌, refl, true, false, nat_beq, arith}
use php_periscope.Common.Results.{ok}
use php_periscope.Common.Text.{codes}
use php_periscope.Replay.Cursor.{contains}
use php_periscope.Dap.Session.{DapMessage, DapServer, new_server}
use php_periscope.Dap.Dispatch.{Env, handle}
use php_periscope.Dap.Requests.{set_points}
use php_periscope.Dap.Outcomes.{Outcome, FailsToOpen, Stops}
use php_periscope.Dap.Answers.{handle-Outcome}
use php_periscope.Json.{null}
use php_periscope.Dap.Points.{set_points_lem}
use php_periscope.Common.Numbers.{IsDigit, show_nat, digits}
use php_periscope.Dap.Wire.{Wire, read_dap_message, framed}
use php_periscope.Dap.Framing.{read_dap_message_lem}

abbrev nothing : Env
nothing = record { open_trace = λ path. none; file_name = λ path. none }

abbrev step_over : DapMessage
step_over = record {
  seq = 7;
  msg_type = codes "request";
  command = some (codes "next");
  arguments = none;
}

handle-Outcome_example :
    Outcome
      (FailsToOpen nothing (codes "next") null)
      (Stops nothing 9 (codes "next") null new_server)
      7
      new_server
      (handle nothing 9 step_over new_server)
handle-Outcome_example = handle-Outcome nothing 9 step_over new_server refl

abbrev set : DapServer
set = set_points (codes "a.php") (3 ∷ 5 ∷ []) new_server

set_points_lem_example : contains set.state.breakpoints.points (codes "a.php", 5) ≡ true
set_points_lem_example = set_points_lem (codes "a.php") (3 ∷ 5 ∷ []) new_server (codes "a.php") 5

abbrev continue_request : DapMessage
continue_request = record {
  seq = 3;
  msg_type = codes "request";
  command = some (codes "continue");
  arguments = none;
}

abbrev plain_wire : Wire
plain_wire = record {
  ops = record {
    is_whitespace = λ c. nat_beq c b' ';
    is_alphanumeric = λ c. true;
    to_lowercase = λ s. s;
    to_json = λ v. [];
    as_f64 = λ n. none;
    parse_f64 = λ s. none;
    close_to = nat_beq;
  };
  from_utf8_lossy = λ bytes. bytes;
  decode = λ bytes. some continue_request;
  to_vec = λ s. [];
}

not_blank : (c : ℕ) → IsDigit c → nat_beq c b' ' ≡ false
not_blank c (low, high) = ground arith

read_dap_message_lem_example :
    read_dap_message plain_wire (codes "Content-Length: 2\r\n\r\n{}X")
    ≡ some (ok (some (continue_request, codes "X")))
unfolding framed show_nat digits
read_dap_message_lem_example =
    read_dap_message_lem plain_wire refl (λ c h. not_blank c h) (λ s h. refl) continue_request
      (codes "{}") (codes "X") (omega arith) refl

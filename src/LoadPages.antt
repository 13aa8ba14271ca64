-- ===== src/LoadPages.antt =====
-- The pages of test-client/run.cpp, which its HTTP handlers make of the variables of `run`.
pub mod Rows
use epoll_server.Base.{ℕ, List, [], ◌∷◌, ◌++◌, length}
use epoll_server.Base.Int.{ℤ, pos}
use epoll_server.Text.{text, to_string, c_string}
use epoll_server.Work.{Work, Log, get_work_log, count_one}

-- The variables of `run` that its handlers share.
pub record Control : Type 0 where
  pub ip_addr : List ℕ
  pub remote_port : ℤ
  pub workers : List Work

abbrev menu : List ℕ
menu =
    text "<div>[<a href=\"/set/start\">START</a>]   [<a href=\"/set/stop\">STOP</a>]</div>"
    ++ text "<hr style='border: none; border-top: dashed black 1px' />"

-- The page without workers.
unfoldable pub page_without_workers : List ℕ
page_without_workers =
    text "<html>"
    ++ text "<head><style>body { font-family:monospace; font-size: 12px; }</style></head>"
    ++ text "<body>"
    ++ menu
    ++ text "<div>There are no active workers</div>"
    ++ text "</body>"
    ++ text "</html>"

abbrev page_start : List ℕ
page_start =
    text "<html>"
    ++ text "<body>"
    ++ text "<head><style>body { font-family:monospace; } td { font-size: 12px; }</style></head>"
    ++ menu

-- The rows on the server that the workers send to.
unfoldable pub target_rows : (ip_addr : List ℕ) → (remote_port : ℤ) → List ℕ
target_rows ip_addr remote_port =
    text "<div>"
    ++ text "<table width='50%'>"
    ++ text "<tr>"
    ++ text "<td>Target ip address</td>"
    ++ text "<td>"
    ++ c_string ip_addr
    ++ text " on port "
    ++ to_string remote_port
    ++ text "</td>"
    ++ text "<tr/>"
    ++ text "<tr>"
    ++ text "<td colspan=2><hr style='border: none; border-top: dashed black 1px' /></td>"
    ++ text "</tr>"

unfoldable pub packet_rows : (message : List ℕ) → List ℕ
packet_rows message =
    text "<tr>"
    ++ text "<td>Packet data</td>"
    ++ text "<td>"
    ++ message
    ++ text " ("
    ++ to_string (pos (length message))
    ++ text " bytes)</td>"
    ++ text "</tr>"
    ++ text "</table>"
    ++ text "</div>"
    ++ text "<br />"
    ++ text "<br />"
    ++ text "<br />"

unfoldable pub log_header : List ℕ
log_header =
    text "<div>"
    ++ text "<table width='100%' style='text-align: center;'>"
    ++ text "<tr style='border-bottom: dashed black 1px'>"
    ++ text
        "<th>#</th><th>Sent/Received</th><th>Sent (bytes)</th><th>Received (bytes)</th><th>Received/Bad (bytes)</th>"
    ++ text "</tr>"
    ++ text "<tr>"
    ++ text "<td colspan=5><hr style='border: none; border-top: dashed black 1px' /></td>"
    ++ text "</tr>"

-- What the loop adds for a worker with this log.
unfoldable pub log_row : Log → List ℕ
log_row log =
    text "<tr>"
    ++ text "<td>"
    ++ to_string (count_one log.index)
    ++ text "</td>"
    ++ text "<td class='packets-log'>"
    ++ to_string log.sent
    ++ text "/"
    ++ to_string log.recv_good
    ++ text "</td>"
    ++ text "<td class='sent-bytes'>"
    ++ to_string log.sent_bytes
    ++ text "</td>"
    ++ text "<td class='received-bytes'>"
    ++ to_string log.recv_good_bytes
    ++ text "</td>"
    ++ text "<td class='received-bad-bytes'>"
    ++ to_string log.recv_bad_bytes
    ++ text "</td>"
    ++ text "</tr>"

-- The loop over the workers.
unfoldable pub add_rows : (response : List ℕ) → List Work → List ℕ
add_rows response [] = response
add_rows response (w ∷ ws) = add_rows (response ++ log_row (get_work_log w)) ws

-- The page with workers.
unfoldable pub page_with_workers : (message : List ℕ) → Control → List ℕ
page_with_workers message c =
    add_rows
      (page_start ++ target_rows c.ip_addr c.remote_port ++ packet_rows message ++ log_header)
      c.workers
    ++ text "</table>"
    ++ text "</body>"
    ++ text "</html>"

-- The head of the pages of `/set/start` and `/set/stop`.
abbrev page_head : List ℕ
page_head =
    text
      "<html><body><head><style>body { font-family:monospace; } td { font-size: 12px; }</style></head>"

unfoldable pub already_started : (count : ℕ) → List ℕ
already_started count =
    page_head ++ to_string (pos count) ++ text " worker(s) already started</body></html>"

unfoldable pub started : (count : ℕ) → List ℕ
started count =
    page_head ++ text "Started " ++ to_string (pos count) ++ text " worker(s)</body></html>"

unfoldable pub none_active : List ℕ
none_active = page_head ++ text "There are no active workers</body></html>"

unfoldable pub stopped : (count : ℕ) → List ℕ
stopped count =
    page_head ++ text "Stopped " ++ to_string (pos count) ++ text " worker(s)</body></html>"

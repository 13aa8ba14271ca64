-- ===== src/Pool/Tests.antt =====
-- Tests of the clients of pool.hpp: a pool of two nodes.
use epoll_server.Base.{◌+◌, ◌≡◌, refl, true, [], ◌∷◌, arith}
use epoll_server.Base.Int.{pos}
use epoll_server.Os.Descriptors.{open_fds, remove}
use epoll_server.Os.Samples.{working}
use epoll_server.Pool.State.{get_active_count, sfd_of, unuse, add_client}
use epoll_server.Pool.Process.{dispatch, process}
use epoll_server.Pool.Dispatch.{mask, Serves, dispatch-Answers}
use epoll_server.Pool.Callbacks.{other, process_callbacks}
use epoll_server.Pool.Settled.{process_full_hangup}
use epoll_server.Pool.Invariant.{Inv}
use epoll_server.Pool.Samples.{one_used, one_used-Inv, quiet, readable, shut_down}
use epoll_server.Pool.Clients.{Added, add_client-Added, unuse-Inv}

add_client-Added_example :
    let (ok, w') = add_client working (pos 8) one_used in Added working (pos 8) 0 [] one_used ok w'
add_client-Added_example = add_client-Added working one_used (pos 8) 0 [] refl one_used-Inv

unuse-Inv_test :
    let w' = (unuse working 1 one_used).1 in
    Inv w'.st (1 ∷ 0 ∷ [])
    × (get_active_count w'.st + 1 ≡ get_active_count one_used.st)
    × (open_fds w'.trace ≡ remove (sfd_of one_used.st 1) (open_fds one_used.trace))
unuse-Inv_test =
    unuse-Inv working one_used 1 (0 ∷ []) one_used-Inv
      (record { in_range = omega arith; not_free = refl })

dispatch-Answers_example : Serves readable (dispatch (mask readable))
dispatch-Answers_example = dispatch-Answers readable

process_full_hangup_test : process working quiet 5 1 (mask shut_down) one_used ≡ (true, one_used)
process_full_hangup_test = process_full_hangup working quiet 5 1 shut_down one_used refl refl refl

process_callbacks_example :
    process working (other working quiet (λ sfd bytes t. []) (λ sfd t. [])) 5 1 (mask readable)
    ≡ process working quiet 5 1 (mask readable)
process_callbacks_example =
    process_callbacks working quiet (λ sfd bytes t. []) (λ sfd t. []) 5 1 readable refl

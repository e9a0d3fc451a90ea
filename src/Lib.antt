-- ===== src/Lib.antt =====
-- bo_atom: an event loop, network tools and small servers in C. The event loop is a fork of the
-- one of Redis, with signals delivered through a pipe and a monotonic clock.
--
-- The parts, and the files that model them:
--
--   Ae.Mask, Ae.Files       ae/ae.c, ae/ae.h: the registered descriptors (aeCreateFileEvent,
--                           aeDeleteFileEvent, aeGetFileEvents, aeResizeSetSize)
--   Ae.Backends             ae/ae/ae_select.c and ae/ae/ae_epoll.c: the polling layers
--   Ae.Timers               ae/ae.c: time events (aeCreateTimeEvent, aeDeleteTimeEvent,
--                           aeSearchNearestTimer, processTimeEvents)
--   Ae.Loop                 ae/ae.c: aeProcessEvents, aeMain, aeStop
--   Ae.Create               ae/ae.c: aeCreateEventLoop, aeDeleteEventLoop
--   Ae.Signals              ae/ae.c: aeCreateSignalEvent, _aeSignalPreProc, _aeSignalProc
--   NetTool                 netTool/netTool.c: readn, writen, eventable, nonblockconnect
--   Server.Clients          Z_my_work_mem/tcp_server.c, Z_my_work_atom/tcp_server.c: clientAdd,
--                           clientDelete on the doubly linked list at ClientQueue
--   Server.Connections      Z_my_work_atom/tcp_server.c: server_accept_handle, and clientDelete
--                           with its calls into the event loop
--   KeyValue.Queue          Z_my_work_mem/tcp_server.h: ResponseInsert, ResponseDeleteHead,
--                           ResponseCount, CmdInsert, CmdDeleteHead
--   KeyValue.Items          Z_my_work_mem/tcp_server.h: Cmd, Response, CmdComplete
--   KeyValue.Receive        Z_my_work_mem/tcp_server.c: _check_cmd_complete2
--   KeyValue.Receive.Handler
--                           the same: recv_cmd_handle, _free_client_cur_cmd, clientDelete
--   KeyValue.Send           Z_my_work_mem/tcp_server.c: send_response_handle
--   KeyValue.Store          Z_my_work_mem/cmd.c: SET_cmd, GET_cmd, ALL_cmd; in KeyValue.Store.Requests what
--                           clients ask, in KeyValue.Store.Blocks how long a response can be read
--   Atom                    Z_my_work_atom/tcp_server.c, cmd.c, tcp_server.h: recv_cmd_handle,
--                           send_response_handle, do_protocol, ADDSEQ
--   Upgrade.Crc             Z_my_work_upgrade/test_client.c: crc32 and its table
--   Upgrade.Header          Z_my_work_upgrade/test_client.c: add_hisiHead
--   Upgrade.Transfer        Z_my_work_upgrade/test_client.c: send_file
--   Log                     log/log.c, log/log.h: init_log_level, save_log, server_log
--   SkipList                data_structure/skiplist/skiplist.c, skiplist.h: zslCreate, zslRandomLevel
--   SkipList.Insert         the same: zslInsert
--   SkipList.Remove         the same: zslDeleteNode, zslDelete, zslDeleteRange, zslDeleteRangeByRank
--   SkipList.Query          the same: zslIsInRange, zslFirstInRange, zslLastInRange, zslGetRank,
--                           zslGetElementByRank, zslFree
--
-- How they interact: the event loop keeps the registered descriptors in an array and tells the
-- polling layer of each change; the interface between them is the record `Ae.Files.Api` with the laws
-- `Ae.Files.Sync.IsLayer`, which both layers fill in `Ae.Backends.Layers`. A turn of the loop
-- (`Ae.Loop.process_events`) asks the layer for the fired descriptors, calls their procedures, and then
-- runs the timers. The program's procedures are the fields of `Ae.Loop.Env` and `Ae.Timers.Clock`, as
-- functions on the whole state, so that they may register, drop and stop as they like. The loop reads
-- each fired event and its slot from the arrays as the procedures before left them.
-- In the key-value server recv_cmd_handle puts what it reads into commands on a client's queue;
-- ALL_cmd takes the complete ones, runs them on the dictionary and appends responses to the client's
-- other queue, which send_response_handle writes out. A response to GET (`KeyValue.Store.borrowed`) points
-- to a block of the dictionary, and `KeyValue.Store.read_reply` gives its items at a later time, if the block
-- is not freed; `KeyValue.Send` starts from the items.
-- The two queues and the client list are modelled twice: as nodes and pointers on a store, where
-- the theorems of `KeyValue.Queue` and `Server.Clients` show which list they stand for, and as
-- that list in `KeyValue.Send`, `KeyValue.Store` and `KeyValue.Receive`, which keeps the address of the
-- queue's tail as well.
-- The skip list stands alone: `SkipList.Chain.IsSkip` says which list of nodes, with the heights of their
-- towers, the links and spans on all levels stand for, `SkipList.Order` what is asked of the comparison, and
-- `SkipList.History` has the sequences of calls from zslCreate on.
--
-- Conventions. A mask is a record of its two bits. The value -1 of `maxfd`, of a deleted event's
-- identifier and of a descriptor is `none`. A call of the operating system is an argument: the list of
-- answers that it gives. A call through a null pointer gives `none`, so a theorem that the
-- result is `some` says that there is none; so does a read outside an array or through a pointer into
-- an array that was moved, in `Ae.Loop`. In the skip list each field of the nodes is a map from
-- addresses, one for each level of the links; a map gives `none` at a node that is not allocated or has no
-- such level, and an entry of the update array is `none` until it is set. The address from malloc, the results of
-- random() and the equality of two pointers of the caller are arguments.
--
-- A read of the signal pipe waits when the pipe is empty: `Ae.Signals.blocked`. A write outside an
-- `fd_set`, for a descriptor of FD_SETSIZE or more, sets `overrun` in `Ae.Backends.SelectState`.
--
-- Bounds and fuel. processTimeEvents recurses on the number of nodes from the current one to the end of
-- the list, which new events at the front do not change. aeMain runs for a given number of rounds
-- and says whether it has stopped, for a loop that need not end. readn and writen
-- recurse on the list of answers. ResponseCount has fuel, and the number of responses is enough. The
-- inner loop of recv_cmd_handle in Z_my_work_atom has fuel, and no fuel is enough: it does not end.
-- The loops of _check_cmd_complete2 have the length of the array and two as fuel, which is enough on
-- all bytes; a run that leaves an array or follows a bad pointer has an outcome of its own.
-- The loops of the skip list along a level, and those that delete or free, have the length and one as
-- fuel, which is enough for a sound structure. Spans are words of 32 bits and ranks words of 32 or 64,
-- so lists are shorter than 2^32.
--
-- Not modelled: reads of an `fd_set` beyond FD_SETSIZE bits by a poll; the other copies of Redis, Linux, OpenSSL, libketama and jsw_rbtree code in the
-- repository; allocation failures other than those of aeCreateEventLoop; negative descriptors,
-- times and millisecond counts; the start-up code of the programs; the accepting side of
-- the key-value server, and its frees of the items of commands; in the skip list the equality of objects other than by the comparison.
pub mod Prelude
pub mod Ae
pub mod NetTool
pub mod Server
pub mod KeyValue
pub mod Atom
pub mod Upgrade
pub mod Log
pub mod SkipList
mod Tests

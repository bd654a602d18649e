-- ===== src/Lib.antt =====
-- Venti is a header-only C++20 library for asynchronous sockets, timers and signals with coroutines
-- (venti/, README.md). This is a model of its Linux build and of the Windows build's own parts. An
-- operation is submitted to the event handler together with an `Event`, a callback with room for a
-- result. It is tried at once if the socket was last seen ready, and otherwise stays in the socket's
-- one slot until `Wait` learns from the kernel that the socket is ready. A finished event goes to the
-- context's wait set, and `Context::Run` dispatches it: the callback runs, and for an awaited operation
-- it resumes a coroutine.
--
-- - Event, Buffer (venti/event.h, venti/buffer.h): `Event::Complete` is `complete`, `Buffers::Size` is
--   `size`. A callback is a function to the list of calls that it makes.
-- - Addr (venti/ip/addr.h): `IPAddr`, its constructors, copy and `ToString`. The functions of
--   venti/ip/htons.h, inet_pton.h and inet_ntop.h are the parameter `NetCode`.
-- - Os: the system calls, a parameter over a type of kernel states; nothing is assumed of them.
-- - Sock (venti/platform/linux/linuxsock.h): `LinuxUtils` in Sock/Utils, the functions that open a
--   socket in Sock/Open, `Send`, `Recv`, `Sendto` and `Recvfrom` in Sock/Transfer, the others in Sock.
-- - World: the state that the parts share. `LinuxSock`s, their `SockEventData` and the addresses that
--   are passed by pointer stand in stores, each under its address; `SockEventData::Set` is `set_bufs`
--   and its three kin.
-- - Context (venti/context.h): `SubmitComplete`, `End` and `Run`. `pass` is the `for` loop of `Run`, on
--   fuel; the fuel that is enough is part of its theorem. `run` is on fuel for its rounds, since the
--   loop of a server need not end.
-- - Epoll (venti/platform/linux/epoll.h, epollimpl.h): the `Submit…` functions in Epoll/Submit, `Wait`
--   in Epoll/Wait, the attempts and the statements that they share in Epoll/Slot. The use of a null
--   pointer is `none`.
-- - Tcp, Udp, Acceptor (venti/socket/): the sockets, with the awaitables' `await_suspend` and `Resume`;
--   what the coroutine does then is the parameter `resume`.
--   Tcp/Answer, Tcp/Arrival, Tcp/Delivery, Tcp/Round, Udp/Delivery, Acceptor/Delivery and Signal/Delivery
--   follow one operation from where it is awaited to the resumption.
-- - Handler: what an event handler promises the loop, apart from how it keeps its operations. Epoll/View
--   says what a world shows of it, Epoll/Request joins the submissions under one name, and
--   Epoll/Refinement, Win/Iocp/Request, Win/Iocp/Refinement and Win/Select/Request relate the handlers to it.
--   Handler/Ledger counts the callbacks that wait anywhere, by any test; Epoll/Asking and Epoll/Ledger
--   keep that account over the calls of callbacks and a round of `Run`.
-- - Timer, Signal (venti/platform/linux/linuxtimer.h, linuxsignal.h, venti/signal/signal.h): a timerfd
--   and a signalfd behind the same handler.
-- - Steady (venti/timer/timer.h, venti/platform/win/wintimer.h): the timer that programs use, on every
--   system. Its completion reads the timer when it is dispatched, so the event's calls are an argument.
-- - Coroutine (venti/coroutine.h): `Result`, and how one coroutine awaits another's future;
--   Coroutine/Nesting lets any number of them await one another. What the language does with the
--   result of `await_suspend` and at a final point is `suspend`, `go_on` and `end_with`.
-- - Examples: a small kernel and world on which each theorem is applied.
-- - Win (venti/platform/win/): the Windows sockets of winsock.h, `WinUtils` and `WinSock`, in Win/Sock,
--   over the parameter `WinOs` in Win/Os; `WinIocp` of winiocp.h and winiocpimpl.h in Win/Iocp, over the
--   parameter `IocpOs`, its blocks in a store in which no address is used twice; `WinSockSelect` of
--   winevent.h and wineventimpl.h in Win/Select, over the parameter `SelectOs`; the table of signal
--   callbacks of winsignal.h and winsignalimpl.h in Win/Signal, for signals that are not negative. The
--   maps and sets of the standard library are ascending lists in Win/Map. What these parts have of the
--   context is its wait set, through `enqueue`. Win/Iocp/Ledger keeps account of the callbacks, and
--   Win/Select/Histories is about any sequence of the calls of `WinSockSelect`.
--
-- `int` has 32 bits, `size_t` and `ssize_t` have 64, and conversions between them are written out.
--
-- Not modelled: the musl copies under venti/ip/; the headers that only select a platform or include
-- others, or rename error numbers (venti/platform/win/winerr.h); and the empty classes of
-- venti/socket/rawsocket.h, resolver.h and dnspacket.h. Of venti/coroutine.h, `Future::get`, which names
-- a member that is not there, and the empty `Stream`.
pub mod Prelude
pub mod Event
pub mod Buffer
pub mod Addr
pub mod Os
pub mod Sock
pub mod World
pub mod Context
pub mod Handler
pub mod Epoll
pub mod Tcp
pub mod Udp
pub mod Acceptor
pub mod Timer
pub mod Steady
pub mod Signal
pub mod Coroutine
pub mod Win
pub mod Examples

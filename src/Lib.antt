-- ===== src/Lib.antt =====
-- Verification of cortono: the two chat pages of the file server and the scripts of the blog's theme, which
-- run in browsers, and of the C++ library the routes of the HTTP server, the buffer of a connection, the
-- timers and the reliable datagrams.
--
-- The parts, and how they interact:
--   Prelude     texts as lists of UTF-16 units, replacement of texts, decimal numbers, integers, and the
--               lemmas on lists, tests and options that the parts share.
--   Face        http/example/file_server/www/js/face.js, first half: the table of faces (Face/Table),
--               `replaceFace` (Face/Defs), the panel with its click listeners (Face/Panel). The chat
--               pages append a token of the panel to the text that is written, and replace the tokens
--               when it is sent.
--   Time        face.js, second half: `unify`, `two`, `getFullTime`, `time.default` (Time/Defs),
--               `time.human` (Time/Human), and which loader gets the library (Time/Exports). The chat
--               room shows times by it. `new Date` is a parameter, with its documented ranges.
--   Chat        http/example/file_server/www/js/im.js (Chat/Im) and chatRoom.js (Chat/Room). Both keep
--               conversations as arrays, and show one of them under a second name, `msgList`: the arrays
--               stand in a heap (Chat/Store). Choosing a user is an assignment after which Vue runs a
--               watcher later (Chat/Window); until then the page still shows the old array. `filterData`
--               makes the markup of a reply (Chat/Replies). An error is `none` in a function, such
--               as pushing onto an array that is not there or a reply without its list, and `thrown`
--               (Chat/Defs) beside what the handler left on the page. A field that a reply leaves out is
--               `none` too. Requests, scrolling and sounds are recorded as effects; what
--               can happen on a page is the type `Event` and its steps, in any order.
--   Next        http/example/blog_server/web/js/src: utils.js (Next/Device, Selector, Geometry,
--               SidebarRoom, Video, Menu, Tabs, Images; Debounce for a timer), motion.js (Next/Motion),
--               bootstrap.js (Next/Bootstrap), post-details.js (Next/PostDetails), schemes/pisces.js
--               (Next/Pisces), scroll-cookie.js (Next/ScrollCookie), exturl.js (Next/Base64), algolia-search.js
--               (Next/Algolia, Next/Popup).
--   Http        http/http_router.hpp: the trie of the rules (Http/Trie) with its search (Http/Trie/Search), and
--               the router (Http/Router), which keeps one for each method. The nodes stand in a
--               vector and know each other by their places. Http/Router/Book says what is served
--               without a trie. `split` of http_utils.hpp (Http/Utils) and `decode` of http_codec.hpp
--               (Http/Codec) take texts apart.
--   Net         net/buffer.hpp: the buffer of a connection (Net/Buffer), and the queue that it stands for
--               (Net/Buffer/Queue). `log_fatal` ends the program: `none`. Its sizes are narrowed to the
--               32 bits of `int`, with their sign. timer.hpp and
--               eventloop.hpp: the timers of a loop (Net/Timers), on the loop's own thread; what a
--               callback does to the loop is a function of its number, and each test of the clock
--               reads the next number of a list.
--   Protocol    the folder protocol: slide_window.hpp (Protocol/SlideWindow), the packets of
--               parser_module.hpp (Protocol/Packet), and send_module.hpp, recv_module.hpp,
--               resend_module.hpp, lost_packet_module.hpp and modify_module.hpp with `handle_packet` of
--               module.hpp (Protocol/Modules). A sender and a receiver are the step relation of
--               Protocol/Transfer, with the packets that the two ever sent: what arrives has the number
--               and the bytes of one of them; a receiver alone with what arrives is that of
--               Protocol/SlideWindow/Stream. Bytes have numbers in the peer's stream, and the ring
--               holds them at their remainders. client.cc and server.cc assert that the ring is longer than two
--               windows: this is what tells a packet that is sent again from one of the next round.
--   Tests       the theorems at concrete inputs.
--
-- Numbers of the program are natural numbers where the code never makes them negative, and ℤ elsewhere;
-- lengths on a page are whole pixels. The quotient and the product of the scroll percentage are rounded to
-- 53 binary places, as those of a double; the places are found on fuel, which is enough for numbers below
-- 2 ^ 53. Sums and differences of std::uint64_t keep their wrap-around. The loop
-- of `set_flag_if_valid` that passes early bytes and that of `move_if_valid` run on fuel for a round of the
-- ring, which is enough. `next` of the integrator calls itself through the motions: it runs
-- on fuel, and the length of the queue is enough, since each call goes on in the queue. `find` of the trie
-- has the number of nodes as fuel, which is enough, since every call goes to a later node; `strtold`
-- and its numbers are parameters, with no hypothesis. `split` has fuel for one piece more than the text has
-- characters, which is enough, since every piece but the last takes a character of the delimiter.
--
-- jQuery, Velocity, Vue, the browser, the services and js-cookie are no part of the program. A call of
-- the first two is recorded as a value or is the change of the page that it documents; the browser's
-- measures and answers are arguments. Not modelled: the templates of Vue, the copies of libraries, and
-- of the C++ code the HTTP server beside these, the event loop beside its timers, sockets, threads and coroutines, and
-- the sharing of files between peers.
pub mod Prelude
pub mod Face
pub mod Time
pub mod Chat
pub mod Next
pub mod Http
pub mod Net
pub mod Protocol
pub mod Tests

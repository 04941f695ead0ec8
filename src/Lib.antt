-- ===== src/Lib.antt =====
-- AgilityContest SerialChronometer connects an agility chronometer with a scoring server, a web page and a
-- console. One process runs a main loop that receives each command as a datagram, and a thread for every
-- manager: serial or network module, server, web, console and QR code reader. A thread that receives
-- something sends it as a command to the loop; the loop has the main manager change the shared
-- configuration, and hands the command on to the other managers by their tables.
--
-- Base: shared names. Base/CString, Base/Int, Base/Number and Base/Print are C strings as lists of bytes,
--   `int` and `long` as integers that wrap, and strtol and printf on decimal numbers. Base/Undefined is
--   the result of code that may run into undefined behaviour, such as a read through NULL: `fault`.
-- Queue: the linked queue of src/sc_tools.c, with a heap of items at addresses. Queue/Chain says when a heap
--   and a queue hold a list of messages; Queue/Put, Queue/Get and Queue/Pick are about the operations.
-- Tools: strhash, str_replace, stripos, hexdump, explode and the session name of src/sc_tools.c.
-- Config: the records of include/sc_config.h, and the defaults and the ini handler of src/sc_config.c. The
--   field `module` is called `driver` here.
-- Debug: the debug level of src/debug.c.
-- Tokens: the array of tokens of a command, which a manager may lengthen by a default.
-- MainMgr: the handlers of src/main_mgr.c, from the configuration and the tokens to a result and the
--   configuration. The fourteen handlers that only log are one definition.
-- Parser: the command table of src/parser.c and its search in src/main.c.
-- Dispatch: a round of the main loop of src/main.c, from the datagram to the answer. Managers are a
--   parameter: slots with tables of handlers on a state of their own.
-- Startup: src/main.c in front of its loop: the command line, the name of the client, the license, and which
--   threads are started. Its children are about the slots, the name and the log level.
-- License: src/license.c, with OpenSSL, the ini parser and files as parameters: the unique id, the items and
--   the logo; License/Decrypt has the decryption and License/Key the public key with its sum. Startup/Licensed
--   puts the license into the start of the program.
-- Relay: the handlers and tables of src/serial_mgr.c and src/net_mgr.c, on a module that is a parameter.
-- Reader: the threads of these two files. What module_read, send and recv return is given round by round;
--   Reader/Start is about loading the module, Reader/Loop about the loop, and Reader/Chain leads from the
--   bytes of the port to the main loop.
-- Digican: module_read and module_write of src/modules/digican.c, on a serial port that is a parameter.
-- Canometer: src/modules/canometroweb.c, with libxml2 and libcurl as parameters: the documents of the
--   device, requests and synchronisation (Canometer/Link), module_read (Canometer/Poll) and module_write
--   (Canometer/Command) with their semaphore, module_init and module_open (Canometer/Start).
-- SerialPort: opening and closing the port in generic.c and digican.c, with libserialport as a parameter.
--   SerialPort/Device says in which order its calls are allowed; SerialPort/Thread puts the module into the
--   thread of Reader.
-- Generic: module_read and module_write of src/modules/generic.c and src/modules/dummy.c.
-- Events: process_eventData of src/ajax_json.c, with the JSON parser as a parameter. Events/Batch has the
--   other functions of that file, which read the answers of the server.
-- Ajax: ajax_put_event of src/ajax_curl.c. Ajax/Handlers has the handlers and the table of src/ajax_mgr.c,
--   Ajax/Thread the requests of src/ajax_curl.c and the loop of its thread, Ajax/Thread/Start the whole
--   thread; Ajax/Query reads an address as a server does, with the percent encoding taken back, Ajax/Fields
--   lists what it is told, Ajax/Address is about the address of an event, and Ajax/Relayed about what a program
--   makes of it that receives it. libcurl is a parameter.
-- Qrcode: the parser of codes and the loop of src/qrcode_mgr.c; Qrcode/Thread has the thread around the loop,
--   and Qrcode/Leaves is about its port.
-- Console: the thread of src/console_mgr.c, from the lines of the terminal to the datagrams. Console/Handlers
--   has the handlers, which print, and Console/Chain leads from a line to the main loop. Config/Print has the
--   two functions of src/sc_config.c that the handlers call.
-- Sockets: src/sc_sockets.c, with the calls of the system as parameters.
-- Web: the handlers of src/web_mgr.c, which put commands into the queue that the web page polls. Web/Thread
--   has the thread of that file, Web/Server readData and writeData of src/web_server.c; Web/Commands is about
--   both, and Web/Chain leads from a command of the page to the main loop. Web/Pages has the files and the
--   logo that the server sends, and its start.
-- Samples: states on which the tests evaluate the definitions.
--
-- Loops over counters run on as much fuel as the counter is away from its end, which
-- Digican/Sync and Canometer/Steps show to be enough; queue_pick, queue_expire and str_replace take fuel, and
-- their theorems name how much is enough, or that no fuel is. A loop that waits for a device or a socket is
-- recursion on the list of what its calls return, and goes on at the end of the list. Memory allocation is
-- taken to succeed where a definition has no argument for it. %s of a null pointer is printed as glibc does.
-- What one thread does to the configuration while another is in the middle of a round is left out: rounds
-- and datagrams are served one after the other.
--
-- Not modelled: the list of the serial ports, which is asked of libserialport; the text of the usage,
-- and the preamble of log messages; what releases memory and libraries at the end; and the sources that are
-- copies of other projects: src/getopt.c, src/ini.c, src/tiny-json.c and the libraries beside src.
pub mod Base
pub mod Queue
pub mod Tools
pub mod Config
pub mod Debug
pub mod Tokens
pub mod MainMgr
pub mod Parser
pub mod Dispatch
pub mod Relay
pub mod Digican
pub mod Canometer
pub mod Events
pub mod Web
pub mod Generic
pub mod Reader
pub mod Ajax
pub mod Qrcode
pub mod Startup
pub mod Console
pub mod License
pub mod Sockets
pub mod SerialPort
mod Samples

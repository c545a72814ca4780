-- ===== src/Lib.antt =====
-- WSLg's application list channel. A Linux server, rdpapplist, a FreeRDP server channel that Weston
-- uses, sends the list of Linux applications to a Windows client, WSLDVCPlugin, a plugin of the RDP
-- client, which makes the shortcuts of the Start menu. A daemon, WSLGd, starts the compositor and
-- keeps it running. This library models the two ends of the channel, the bytes between them, what
-- the plugin does with a message, and the daemon: its start-up, its font monitor and its process
-- monitor.
--
-- Protocol holds the constants of rdpapplist/rdpapplist_protocol.h, which WSLDVCPlugin/rdpapplist.h
-- repeats. Common has the helpers: Boolean tests, lists over the native numbers, words as bytes,
-- flags.
--
-- Server models rdpapplist/server/rdpapplist_main.c. Server.Pdu has the messages as the caller
-- fills them in, Server.WinPr the streams and the channel of WinPR as a record of operations and
-- their laws, and Server.Send the five send functions (rdpapplist_send_caps,
-- rdpapplist_send_update_applist, rdpapplist_send_delete_applist,
-- rdpapplist_send_delete_applist_provider, rdpapplist_send_associate_window_id) with
-- rdpapplist_write_header of rdpapplist/rdpapplist_common.c. Below Send, Payload writes the wire
-- format down independently of the code. Server.Receive has the receiving half, from
-- rdpapplist_read_header to rdpapplist_server_handle_messages, over the input streams and the
-- channel of Server.Input.
--
-- Client models WSLDVCPlugin. Client.Memory has fixed buffers and C strings in them, Client.Pdu the
-- structs, Client.Reader the read macros of WSLDVCPlugin/rdpapplist.h, Client.Read the ReadAppList
-- functions of WSLDVCPlugin/WSLDVCCallback.cpp, Client.FileDb the set of files of
-- WSLDVCPlugin/WSLDVCFileDB.cpp, Client.SyncDb its synchronisation, and Client.Callback the
-- callback object: its state and, in Caps, Update, Delete, Associate, Sync and Receive, one handler
-- each. Client.Provider is RemoveAppProvider of WSLDVCPlugin/dllmain.cpp, and Client.Shell has
-- CreateShellLink, GetIconFileFromShellLink and UpdateTaskBarInfo of WSLDVCPlugin/utils.cpp, each
-- with the calls of COM that it makes, and Client.Shell.Pinning says what the last does without an
-- icon; the handlers take these three as operations of Client.Windows. Client.Trust is
-- IsFileTrusted of that file over WinVerifyTrust. Client.Plugin has VirtualChannelGetInstance and
-- the COM classes of WSLDVCPlugin/WSLDVCPlugin.cpp and WSLDVCListenerCallback.cpp, and
-- Client.Plugin.Connections the callbacks of all connections over the life of the plugin, with the
-- world that they share with other processes; Client.Plugin.OtherFiles is about the files that are
-- not the plugin's. Client.Callback.Confined says which paths are the plugin's own, and its
-- children follow the handlers with the rules of Client.Callback.Hoare. Client.Windows has what the
-- plugin calls of Windows as a record of operations on a world. A handler is a sequence of steps
-- (Callback.Steps) that each go on with a value or return an error. Callback.Publish has the run of
-- OnUpdateAppList on a message with no group, no icon and no synchronisation, and Callback.Windowed
-- that of OnAssociateWindowId on an application in the file database. A reader is a function from
-- the struct and the bytes left to the struct and the bytes left, or an error with the struct as it
-- is then; cur and len of the source are one list.
--
-- Wire has both ends together: what the client reads of what the server sends, and what it does
-- when a message arrives: Launch follows an update message to the shortcut, Window an associate-
-- window-id message to the task bar, Deletion a delete message to the files.
--
-- Daemon.ProcessMonitor models WSLGd/ProcessMonitor.cpp, which restarts the daemon's children: a
-- round of ProcessMonitor::Run as a function of what waitpid, the clock and fork give.
--
-- Examples has the theorems at concrete messages, with lists for streams and channels.
--
-- Server.Life has the context, open, close and the thread of the server: each takes what the system
-- gives as an argument and lists the calls that acquire or release a resource. Server.Life.Closing
-- runs close and the thread against each other: a step of the relation is a wait, a round of
-- handle_messages, or a part of close between two waits. Daemon.FontMonitor models
-- WSLGd/FontMonitor.cpp: System is the interface to the system, Folder the class FontFolder,
-- Monitor the class FontMonitor, Monitor.Buffer the loop of its thread over a buffer, which takes
-- one round per event and is given as many as there are bytes. A directory is a tree of the
-- directories below it, as the iterators find it. Monitor.Kept is the rule by which an invariant of
-- the table goes through every operation, Monitor.OnEvent its use for an event, and Monitor.Runs
-- the life of a monitor.
--
-- Daemon.Startup models WSLGd/main.cpp. Host is the interface to Linux, Steps the steps of main,
-- which go on, return or throw, Text and Helpers the functions that main calls, CommandLines the
-- processes that it launches, Preparation the environment, the directories, the shared memory and
-- the socket, and Main the stages: set_up up to the launch of weston, await_weston,
-- client_settings, start_up, and main with the rounds of the process monitor. The search for a port
-- has 1023 rounds, as in the source.
--
-- Bytes are numbers, and a word's wrap-around is written out (% u32_mod). A WCHAR array is the list
-- of its bytes. OnDataReceived runs on fuel, one round per byte of the buffer, and it is proved
-- that this is enough; the receive loop of the server runs on fuel that its caller gives, since it
-- need not end.
--
-- Not modelled: reference counts and the memory of the plugin's own objects, the critical section
-- of the callback, WSLGd/lxwil.h, which is a copy of another library, log output and tracing
-- (WSLGd/trace.h), the system calls of the daemon. The buffers of WTSQuerySessionInformationA and
-- WTSVirtualChannelQuery are not among the resources of Server.Life. A cancellation of the font
-- monitor's thread in the middle of an event is left out: it stops between two events. Where a
-- bounded string function fails (wcscat_s, wcscpy_s, swprintf_s), the plugin's handlers go on with
-- the error and the array as it was; the C runtime first calls its invalid-parameter handler, which
-- by default ends the process, and empties the array.
pub mod Common
pub mod Protocol
pub mod Server
pub mod Client
pub mod Daemon
pub mod Wire
pub mod Examples
